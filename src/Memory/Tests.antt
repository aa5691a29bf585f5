-- ===== src/Memory/Tests.antt =====
-- Runs of the models of henry/memory.
use henry.Prelude.{◌≡◌, ◌≢◌, refl, arith, false, ◌&&◌, none, some, [], ◌∷◌, if◌then◌else◌}
use henry.Text.{Text, codes, ◌===◌, ===_iff}
use henry.Text.Words.{strip, is_space}
use henry.Json.{Json, Fields, null, done, field, str, put}
use henry.Contracts.{ConversationTranscript, user_role}
use henry.Memory.Items.{MemoryTable, remember}
use henry.Memory.Tools.{one_item, item_to_dict, read_memory, write_memory}
use henry.Memory.Tools.Reads.{written_item, read_memory-write_memory}

abbrev metadata : Fields
metadata = field (codes "path") (str (codes " notes/a ")) done

abbrev stored : MemoryTable
stored = remember (codes "f1") [] (codes "C1") (codes "old") (codes "fact") metadata

abbrev show : Json → Text
show v = []

abbrev same : Text → Text
same t = t

abbrev thread : ConversationTranscript
thread = record {
  channel_id = codes "C1";
  thread_ts = codes "1.0";
  messages = record { role = user_role; text = codes "hi"; user = none; ts = none } ∷ [];
}

abbrev spaced : Text
spaced = codes " a"

nonempty : (t : Text) → (t === []) ≡ false → t ≢ []
nonempty t h e = absurd (ground (arith, ===_iff t []))

spaced-full : strip spaced ≢ []
unfolding strip codes ◌===◌ is_space
spaced-full = nonempty (strip spaced) refl

a-full : codes "a" ≢ []
unfolding codes ◌===◌
a-full = nonempty (codes "a") refl

read_memory-write_memory_example :
    read_memory
      (λ i. null)
      (λ ts. ts)
      (write_memory
        (codes "f2")
        stored
        (codes "C1")
        (codes "new")
        (codes "fact")
        (some spaced)
        done).0
      []
      (codes "C1")
      (some (codes "a"))
    ≡ (if codes "C1" === codes "C1" && strip spaced === codes "a"
        then one_item (
            some (
              item_to_dict
                (λ i. null)
                (written_item
                  (λ i. null)
                  (λ ts. ts)
                  []
                  (codes "new")
                  (codes "fact")
                  (strip spaced)
                  (put (codes "path") (str spaced) done))))
        else read_memory (λ i. null) (λ ts. ts) stored [] (codes "C1") (some (codes "a")))
read_memory-write_memory_example =
    read_memory-write_memory (λ i. null) (λ ts. ts) [] (codes "f2") stored (codes "C1")
      (codes "new") (codes "fact") spaced done (codes "C1") (codes "a") spaced-full a-full
