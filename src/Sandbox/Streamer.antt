-- ===== src/Sandbox/Streamer.antt =====
-- internal/sandbox/output_streamer.go: output is buffered and sent on in pieces. The sender is set; a
-- byte is a number. Write releases the mutex before it flushes, so that the two are separate steps.
use nodeagentx.Prelude.{
  concat, ℕ, ◌≡◌, refl, Bool, List, [], ◌∷◌, ◌++◌, leb, length, if◌then◌else◌, append_assoc,
  append-nil, ◌∙◌, sym, ap, Bool-cases, inl, inr,
}

pub record OutputStreamer : Type 0 where
  pub flush_size : ℕ
  pub buf : List ℕ
  pub sent : List (List ℕ)  -- the calls of the sender, oldest first

unfoldable pub new_output_streamer : ℕ → OutputStreamer
new_output_streamer flush_size = record { flush_size = flush_size; buf = []; sent = [] }

-- The flush of a buffer: nothing is sent of an empty one.
abbrev pub flush_buf : List ℕ → OutputStreamer → OutputStreamer
flush_buf [] os = record os { buf = [] }
flush_buf (b ∷ bytes) os = record os { buf = []; sent = os.sent ++ (b ∷ bytes) ∷ [] }

unfoldable pub flush : OutputStreamer → OutputStreamer
flush os = flush_buf os.buf os

unfoldable pub append_output : List ℕ → OutputStreamer → OutputStreamer
append_output bytes os = record os { buf = os.buf ++ bytes }

unfoldable pub should_flush : OutputStreamer → Bool
should_flush os = leb os.flush_size (length os.buf)

unfoldable pub write : List ℕ → OutputStreamer → OutputStreamer
write bytes os = let os' = append_output bytes os in if should_flush os' then flush os' else os'

-- The steps of several goroutines in any order. A write is its append, and maybe a flush later.
pub data StreamOp : Type 0 where
  appends : List ℕ → StreamOp
  flushes : StreamOp
  writes : List ℕ → StreamOp

unfoldable pub stream_step : StreamOp → OutputStreamer → OutputStreamer
stream_step (appends bytes) os = append_output bytes os
stream_step flushes os = flush os
stream_step (writes bytes) os = write bytes os

unfoldable pub stream_run : List StreamOp → OutputStreamer → OutputStreamer
stream_run [] os = os
stream_run (op ∷ ops) os = stream_run ops (stream_step op os)

abbrev pub output_of : List StreamOp → List ℕ
output_of [] = []
output_of (appends bytes ∷ ops) = bytes ++ output_of ops
output_of (flushes ∷ ops) = output_of ops
output_of (writes bytes ∷ ops) = bytes ++ output_of ops

-- What was taken in and not lost.
abbrev kept : OutputStreamer → List ℕ
kept os = concat os.sent ++ os.buf

concat-snoc : (xss : List (List ℕ)) (xs : List ℕ) → concat (xss ++ xs ∷ []) ≡ concat xss ++ xs
concat-snoc [] xs = append-nil xs
concat-snoc (ys ∷ xss) xs = rw (concat-snoc xss xs) (sym (append_assoc ys (concat xss) xs))

flush_buf-kept :
    (bytes : List ℕ) (os : OutputStreamer) → kept (flush_buf bytes os) ≡ concat os.sent ++ bytes
flush_buf-kept [] os = refl
flush_buf-kept (b ∷ bytes) os = append-nil _ ∙ concat-snoc os.sent (b ∷ bytes)

flush-kept : (os : OutputStreamer) → kept (flush os) ≡ kept os
unfolding flush
flush-kept os = flush_buf-kept os.buf os

append_output-kept :
    (bytes : List ℕ) (os : OutputStreamer) → kept (append_output bytes os) ≡ kept os ++ bytes
unfolding append_output
append_output-kept bytes os = sym (append_assoc (concat os.sent) os.buf bytes)

write-kept : (bytes : List ℕ) (os : OutputStreamer) → kept (write bytes os) ≡ kept os ++ bytes
unfolding write
write-kept bytes os = elim (Bool-cases (should_flush (append_output bytes os))) [
  | inl e ↦ rw (e, write) (flush-kept (append_output bytes os) ∙ append_output-kept bytes os)
  | inr e ↦ rw (e, write) (append_output-kept bytes os)
]

stream_run-kept :
    (ops : List StreamOp) (os : OutputStreamer)
    → kept (stream_run ops os) ≡ kept os ++ output_of ops
unfolding stream_run stream_step
stream_run-kept [] os = sym (append-nil (kept os))
stream_run-kept (appends bytes ∷ ops) os =
    stream_run-kept ops (append_output bytes os)
    ∙ ap (λ k. k ++ output_of ops) (append_output-kept bytes os)
    ∙ append_assoc (kept os) bytes (output_of ops)
stream_run-kept (flushes ∷ ops) os =
    stream_run-kept ops (flush os) ∙ ap (λ k. k ++ output_of ops) (flush-kept os)
stream_run-kept (writes bytes ∷ ops) os =
    stream_run-kept ops (write bytes os)
    ∙ ap (λ k. k ++ output_of ops) (write-kept bytes os)
    ∙ append_assoc (kept os) bytes (output_of ops)

buf-flush_buf : (bytes : List ℕ) (os : OutputStreamer) → (flush_buf bytes os).buf ≡ []
buf-flush_buf [] os = refl
buf-flush_buf (b ∷ bytes) os = refl

-- In whatever order writes and flushes happen, the flush of Stop empties the buffer, and what was sent
-- is all output that was written, each byte once and in order.
pub stream_run-delivers :
    (flush_size : ℕ) (ops : List StreamOp)
    → let os = flush (stream_run ops (new_output_streamer flush_size)) in
      (os.buf ≡ []) × (concat os.sent ≡ output_of ops)
unfolding flush new_output_streamer
stream_run-delivers flush_size ops =
    let before = stream_run ops (new_output_streamer flush_size) in
    let empty = buf-flush_buf before.buf before in
    (
      empty,
      sym (append-nil _)
          ∙ ap (λ b. concat (flush_buf before.buf before).sent ++ b) (sym empty)
          ∙ flush-kept before
          ∙ stream_run-kept ops (new_output_streamer flush_size),
    )
