-- ===== src/Tests/TlsErrors.antt =====
-- The message of an OpenSSL error whose code has its highest bit set.
use neo_io.Prelude.{
  ℕ, ◌%◌, ◌==◌, ◌≡◌, if◌then◌else◌, Option, none, some, List, [], ◌∷◌, int_mod, to_int,
}
use neo_io.Transfer.{ErrorCode, ssl_category, thrown}
use neo_io.Ssl.Context.{ContextCalls}
use neo_io.Ssl.Ownership.{Pointers, throw_current}
use neo_io.Ssl.Errors.{or_unknown, message, throw_current-message}
use neo_io.Tests.TlsObjects.{Heap, context_calls, engine_calls, taken, modern}

abbrev code : ℕ
code = 0x9000000a

abbrev queued : ContextCalls Heap
queued = record context_calls { err_get_error = λ w. (code, w) }

abbrev reason : ℕ → Option (List ℕ)
reason n = if n % int_mod == code then some (110 ∷ 111 ∷ []) else none

abbrev heap : Heap
heap = record { next = 1; contexts = []; ssls = []; bios = [] }

throw_current-message_example :
    (ec : ErrorCode) × (throw_current queued engine_calls taken modern {A = Pointers} heap
      ≡ (thrown ec, heap))
    × (ec.category ≡ ssl_category)
    × (message reason (λ n. n ∷ []) ec.value ≡ or_unknown (reason code) (to_int code ∷ []))
throw_current-message_example =
    throw_current-message queued engine_calls taken modern reason (λ n. n ∷ []) heap (λ a b h. rw h)
