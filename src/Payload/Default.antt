-- ===== src/Payload/Default.antt =====
-- `DefaultStore` of src/lib.rs.
use segstore.Base.{
  ◌≡◌, refl, ap, arith, List, [], ◌∷◌, map, some, keep, length, Bool, if◌then◌else◌,
}
use segstore.Payload.{Store, StoreLaws, flatten, ids, items_of}

module _ {Key Item : Type 0} where
  abbrev pub default_build_segment : List (Key × Item) → List (Key × Item)
  default_build_segment batch = batch

  abbrev pub default_merge_segments : List (List (Key × Item)) → (Key → Bool) → List (Key × Item)
  default_merge_segments segments live = keep (λ e. live e.0) (flatten segments)

  abbrev pub default_store : Store Key Item (List (Key × Item))
  default_store = record {
    build_segment = default_build_segment;
    merge_segments = default_merge_segments;
    segment_len = length;
    live_len = λ segment live. some (length (keep (λ e. live e.0) segment));
    item_ids = λ segment. some (ids segment);
  }

  pub map_id : (ls : List (List (Key × Item))) → map (λ l. l) ls ≡ ls
  map_id [] = refl
  map_id (l ∷ ls) = ap (◌∷◌ l) (map_id ls)

module _ {Key Item : Type 0} (dec : Discrete Key) where
  pub items-keep :
      (live : Key → Bool) (j : Key) (l : List (Key × Item))
      → items_of dec j (keep (λ e. live e.0) l) ≡ (if live j then items_of dec j l else [])
  unfolding items_of
  items-keep live j [] = ground arith
  items-keep live j ((i, x) ∷ l) = ground (arith, items-keep live j l, ap live {x = i} {y = j})

  -- `DefaultStore` keeps the laws that the documentation of `Store` asks for.
  abbrev pub default_laws : StoreLaws dec (default_store {Key = Key} {Item = Item})
  default_laws = record {
    entries = λ seg. seg;
    items-build_segment = λ batch j. refl;
    items-merge_segments = λ segs live j. rw map_id (items-keep live j (flatten segs));
    segment_len-entries = λ seg. refl;
    item_ids-entries = λ seg. refl;
  }
