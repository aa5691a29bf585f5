-- ===== src/Memory/Tools/Reads.antt =====
-- What the model reads back of what it wrote.
use henry.Prelude.{
  ℕ, ◌≡◌, ◌≢◌, refl, ap, sym, ◌∙◌, Bool, true, false, ◌&&◌, Option, none, some, List, [], ◌∷◌,
  arith, if◌then◌else◌,
}
use henry.Text.{Text, codes, ◌===◌, ===-refl}
use henry.Text.Words.{strip}
use henry.Json.{Json, Fields, str, put, get-put}
use henry.Memory.Items.{MemoryItem, MemoryTable, memory_path, remember, get_item}
use henry.Memory.Items.Kept.{get-remember}
use henry.Memory.Snapshot.{StateTable}
use henry.Memory.Tools.{item_to_dict, one_item, item_dict, read_memory, write_memory}

named_path :
    (fresh kind path : Text) (metadata : Fields) (c : ℕ) (t : Text)
    → strip path ≡ c ∷ t
    → memory_path fresh kind (put (codes "path") (str path) metadata)
      ≡ (c ∷ t, put (codes "path") (str path) metadata)
unfolding memory_path
named_path fresh kind path metadata c t h =
    ground
      (arith, get-put (codes "path") (codes "path") (str path) metadata, ===-refl (codes "path"))

module _ (created_at : MemoryItem → Json) (order_by : List Text → List Text)
    (states : StateTable) where
  -- What the tool says of an item, and whether the path is the one that the item was written under.
  abbrev pub written_item : (content kind path : Text) → Fields → MemoryItem
  written_item content kind path metadata = record {
    path = path;
    content = content;
    kind = kind;
    metadata = metadata;
    score = none;
  }

  written_at :
      (fresh : Text) (table : MemoryTable) (channel_id content kind : Text) (c : ℕ) (path : Text)
      (metadata : Fields) (other : Text) (d : ℕ) (q : Text) (e : ℕ) (t : Text)
      → strip (c ∷ path) ≡ e ∷ t
      → read_memory created_at order_by
          (write_memory fresh table channel_id content kind (some (c ∷ path)) metadata).0
          states
          other
          (some (d ∷ q))
        ≡ (if channel_id === other && (e ∷ t) === (d ∷ q)
            then one_item (
                some (
                  item_to_dict created_at (
                    written_item content kind
                      (e ∷ t)
                      (put (codes "path") (str (c ∷ path)) metadata))))
            else read_memory created_at order_by table states other (some (d ∷ q)))
  unfolding read_memory write_memory item_dict
  written_at fresh table channel_id content kind c path metadata other d q e t h =
      ap (λ o. one_item (item_dict created_at o)) (found ∙ ap chosen named)
      ∙ by_test (channel_id === other && (e ∷ t) === (d ∷ q))
    where
      given : Fields
      given = put (codes "path") (str (c ∷ path)) metadata

      named : memory_path fresh kind given ≡ (e ∷ t, given)
      named = named_path fresh kind (c ∷ path) metadata e t h

      chosen : Text × Fields → Option MemoryItem
      chosen m =
          if channel_id === other && m.0 === (d ∷ q)
          then some (written_item content kind m.0 m.1)
          else get_item table other (d ∷ q)

      found :
          get_item (remember fresh table channel_id content kind given) other (d ∷ q)
          ≡ chosen (memory_path fresh kind given)
      found = get-remember fresh table channel_id content kind given other (d ∷ q)

      by_test :
          (b : Bool)
          → one_item (
              item_dict created_at (
                if b
                then some (written_item content kind (e ∷ t) given)
                else get_item table other (d ∷ q)))
            ≡ (if b
                then one_item
                    (some (item_to_dict created_at (written_item content kind (e ∷ t) given)))
                else one_item (item_dict created_at (get_item table other (d ∷ q))))
      by_test true = refl
      by_test false = refl

  not_blank : (t : Text) → t ≢ [] → (c : ℕ) × (u : Text) × (t ≡ c ∷ u)
  not_blank [] n = absurd (n refl)
  not_blank (c ∷ u) n = (c, u, refl)

  strip-nil : strip [] ≡ []
  unfolding strip
  strip-nil = refl

  -- What is written under a path that is not blank is read under that path without the white space around
  -- it, with its content, kind and metadata, in its channel; under every other path, the one with the white
  -- space included, and in every other channel, the tool reads what it read before.
  pub read_memory-write_memory :
      (fresh : Text) (table : MemoryTable) (channel_id content kind path : Text) (metadata : Fields)
      (other q : Text)
      → strip path ≢ []
      → q ≢ []
      → read_memory created_at order_by
          (write_memory fresh table channel_id content kind (some path) metadata).0
          states
          other
          (some q)
        ≡ (if channel_id === other && strip path === q
            then one_item (
                some (
                  item_to_dict created_at (
                    written_item content kind
                      (strip path)
                      (put (codes "path") (str path) metadata))))
            else read_memory created_at order_by table states other (some q))
  read_memory-write_memory fresh table channel_id content kind [] metadata other q h n =
      absurd (h strip-nil)
  read_memory-write_memory fresh table channel_id content kind (c ∷ path) metadata other [] h n =
      absurd (n refl)
  read_memory-write_memory fresh table channel_id content kind (c ∷ path) metadata other (d ∷ q) h
        n =
      let (e, t, k) = not_blank (strip (c ∷ path)) h in
      written_at fresh table channel_id content kind c path metadata other d q e t k
      ∙ ap
          (λ w.
            if channel_id === other && w === (d ∷ q)
            then one_item (
                some (
                  item_to_dict created_at
                    (written_item content kind w (put (codes "path") (str (c ∷ path)) metadata))))
            else read_memory created_at order_by table states other (some (d ∷ q)))
          (sym k)
