-- ===== src/Runtime/DeadLetter.antt =====
-- src/runtime/dead_letter.py: the queue of items that are not retried any more.
use signalproject.Prelude.{
  ℕ, zero, suc, Bool, true, false, Option, none, some, List, [], ◌∷◌, ◌++◌, length, map, Result, ok,
  err, if◌then◌else◌,
}
use signalproject.Prelude.Text.{Text}
use signalproject.Runtime.Queue.{at_capacity}
use signalproject.Runtime.Queue.Items.{WorkItem, QueueError, value_error}

pub record DeadLetterEntry : Type 0 where
  pub item : WorkItem
  pub reason : Text
  pub attempt : ℕ
  pub dead_lettered_at : Text

pub record DeadLetterQueue : Type 0 where
  pub entries : List DeadLetterEntry
  pub max_size : Option ℕ

-- DeadLetterQueue.__init__; a negative size raises as 0 does.
unfoldable pub init : (max_size : Option ℕ) → Result QueueError DeadLetterQueue
init none = ok (record { entries = []; max_size = none })
init (some zero) = err (value_error "max_size must be positive or None")
init (some (suc n)) = ok (record { entries = []; max_size = some (suc n) })

abbrev pub size : DeadLetterQueue → ℕ
size d = length d.entries

-- A full queue drops the new entry.
unfoldable pub enqueue :
    (now : Text)
    → DeadLetterQueue
    → WorkItem
    → (reason : Text) → (attempt : ℕ) → Bool × DeadLetterQueue
enqueue now d item reason attempt = if at_capacity d.max_size (size d) then (false, d) else (
  true,
  record d {
    entries =
        d.entries
        ++ record { item = item; reason = reason; attempt = attempt; dead_lettered_at = now } ∷ [];
  },
)

abbrev pub list_entries : DeadLetterQueue → List DeadLetterEntry
list_entries d = d.entries

abbrev pop_from : DeadLetterQueue → List DeadLetterEntry → Option DeadLetterEntry × DeadLetterQueue
pop_from d [] = (none, d)
pop_from d (entry ∷ rest) = (some entry, record d { entries = rest })

unfoldable pub pop_oldest : DeadLetterQueue → Option DeadLetterEntry × DeadLetterQueue
pop_oldest d = pop_from d d.entries

unfoldable pub clear : DeadLetterQueue → DeadLetterQueue
clear d = record d { entries = [] }

unfoldable pub items_for_replay : DeadLetterQueue → List WorkItem
items_for_replay d = map (λ (e : DeadLetterEntry). e.item) d.entries
