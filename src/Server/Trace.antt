-- ===== src/Server/Trace.antt =====
-- `interpret_event`, which puts the names of an event's flags into a buffer of 256 bytes for the log
-- (libnbuss/IGenericServer.cpp).
use nonblocking_unix_socket.Base.{
  ℕ, ◌+◌, ◌≤◌, ◌<◌, ◌≡◌, inl, inr, refl, Bool, true, false, leb, leb→le, ◌==◌, Bool-cases, List, [],
  ◌∷◌, ◌++◌, length, length-append, if◌then◌else◌, arith,
}
use nonblocking_unix_socket.Kernel.{has}
use nonblocking_unix_socket.Client.Path.{IsCString, append-IsCString}
use nonblocking_unix_socket.Server.Listen.{epollin, epollout, epollerr, epollhup, epollrdhup}

abbrev pub epollpri : ℕ
epollpri = 2

-- `char buffer[256]`
abbrev pub trace_size : ℕ
trace_size = 256

-- The common beginning of the names.
abbrev pub epoll_word : List ℕ → List ℕ
epoll_word rest = b'E' ∷ b'P' ∷ b'O' ∷ b'L' ∷ b'L' ∷ rest ++ b' ' ∷ []

-- `if (event & mask) strcat(buffer, word)`
abbrev pub append_if : ℕ → ℕ → List ℕ → List ℕ → List ℕ
append_if event mask word buffer = if has event mask then buffer ++ word else buffer

unfoldable pub interpret_event : ℕ → List ℕ
interpret_event event = append_if event epollpri (epoll_word (b'P' ∷ b'R' ∷ b'I' ∷ [])) (
    append_if event epollerr (epoll_word (b'E' ∷ b'R' ∷ b'R' ∷ [])) (
      append_if event epollhup (epoll_word (b'H' ∷ b'U' ∷ b'P' ∷ [])) (
        append_if event epollrdhup (epoll_word (b'R' ∷ b'D' ∷ b'H' ∷ b'U' ∷ b'P' ∷ [])) (
          append_if event epollout (epoll_word (b'O' ∷ b'U' ∷ b'T' ∷ []))
            (append_if event epollin (epoll_word (b'I' ∷ b'N' ∷ [])) [])))))

-- A C string of at most `n` bytes.
record IsShort (n : ℕ) (buffer : List ℕ) : Type 0 where
  short : length buffer ≤ n
  ended : IsCString buffer

append_if-IsShort :
    (event mask n m : ℕ) (word buffer : List ℕ)
    → IsShort m word
    → IsShort n buffer
    → IsShort (n + m) (append_if event mask word buffer)
append_if-IsShort event mask n m word buffer w b = elim (Bool-cases (has event mask)) [
  | inl e ↦ rw e (record {
    short = omega (arith, w.short, b.short, length-append buffer word);
    ended = append-IsCString buffer word b.ended w.ended;
  })
  | inr e ↦ rw e (record { short = omega (arith, b.short); ended = b.ended })
]

has_zero : List ℕ → Bool
has_zero [] = false
has_zero (b ∷ bs) = if b == 0 then true else has_zero bs

no_zero-IsCString : (bs : List ℕ) → has_zero bs ≡ false → IsCString bs
unfolding has_zero
no_zero-IsCString [] h = tt
no_zero-IsCString (b ∷ bs) h = elim (Bool-cases (b == 0)) [
  | inl e ↦ cc (rw e at h)
  | inr e ↦ (λ z. ground (arith, z, e), no_zero-IsCString bs (rw e at h))
]

literal-IsShort :
    (n : ℕ) (word : List ℕ) → leb (length word) n ≡ true → has_zero word ≡ false → IsShort n word
literal-IsShort n word short ended = record {
  short = leb→le (length word) n short;
  ended = no_zero-IsCString word ended;
}

-- The names of the flags fit into the buffer with the zero byte behind them, and hold none.
interpret_event-fits :
    (event : ℕ) → (length (interpret_event event) < trace_size) × IsCString (interpret_event event)
unfolding interpret_event has_zero
interpret_event-fits event = (omega (arith, all.short), all.ended)
  where
    all : IsShort 55 (interpret_event event)
    all =
        append_if-IsShort event epollpri 46 9 (epoll_word (b'P' ∷ b'R' ∷ b'I' ∷ [])) _
          (literal-IsShort 9 _ refl refl)
          (append_if-IsShort event epollerr 37 9 (epoll_word (b'E' ∷ b'R' ∷ b'R' ∷ [])) _
            (literal-IsShort 9 _ refl refl)
            (append_if-IsShort event epollhup 28 9 (epoll_word (b'H' ∷ b'U' ∷ b'P' ∷ [])) _
              (literal-IsShort 9 _ refl refl)
              (append_if-IsShort event epollrdhup 17 11
                (epoll_word (b'R' ∷ b'D' ∷ b'H' ∷ b'U' ∷ b'P' ∷ [])) _
                (literal-IsShort 11 _ refl refl)
                (append_if-IsShort event epollout 8 9 (epoll_word (b'O' ∷ b'U' ∷ b'T' ∷ [])) _
                  (literal-IsShort 9 _ refl refl)
                  (append_if-IsShort event epollin 0 8 (epoll_word (b'I' ∷ b'N' ∷ [])) []
                    (literal-IsShort 8 _ refl refl)
                    (record { short = omega arith; ended = tt }))))))
