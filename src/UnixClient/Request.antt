-- ===== src/UnixClient/Request.antt =====
-- What unix_socket_client/unixsocketclient.c puts on the stream.
use nonblocking_unix_socket.Base.{
  ℕ, ◌≡◌, ◌≢◌, refl, sym, ap, ◌∙◌, List, [], ◌∷◌, ◌++◌, append_assoc, append-nil, ℤ, minus_one,
  ◌==◌, if◌then◌else◌, arith,
}
use nonblocking_unix_socket.Kernel.{Kernel, WriteLaws}
use nonblocking_unix_socket.Transfer.Full.{TakesAll, sys_write-all}
use nonblocking_unix_socket.Client.Path.{IsCString}
use nonblocking_unix_socket.UnixClient.{end_word, send_arguments, send_request}

-- The strings that a receiver finds on a stream: each ends at a zero byte. The bytes behind the last
-- zero byte make no string yet.
pub strings_from : List ℕ → List ℕ → List (List ℕ)
strings_from word [] = []
strings_from word (b ∷ bs) =
    if b == 0 then word ∷ strings_from [] bs else strings_from (word ++ b ∷ []) bs

abbrev pub AreCStrings : List (List ℕ) → Type 0
AreCStrings [] = Unit
AreCStrings (arg ∷ args) = IsCString arg × AreCStrings args

-- The strings on the stream, each with its zero byte.
abbrev pub with_zeros : List (List ℕ) → List ℕ
with_zeros [] = []
with_zeros (arg ∷ args) = (arg ++ 0 ∷ []) ++ with_zeros args

strings_from-string :
    (word arg rest : List ℕ)
    → IsCString arg
    → strings_from word ((arg ++ 0 ∷ []) ++ rest) ≡ (word ++ arg) ∷ strings_from [] rest
unfolding strings_from
strings_from-string word [] rest c = ap (λ w. w ∷ strings_from [] rest) (sym (append-nil word))
strings_from-string word (b ∷ bs) rest c =
    ground
      (arith, c.0, strings_from-string (word ++ b ∷ []) bs rest c.1, append_assoc word (b ∷ []) bs)

strings_from-with_zeros :
    (args : List (List ℕ)) (rest : List ℕ)
    → AreCStrings args
    → strings_from [] (with_zeros args ++ rest) ≡ args ++ strings_from [] rest
strings_from-with_zeros [] rest c = refl
strings_from-with_zeros (arg ∷ args) rest c =
    ap (strings_from []) (append_assoc (arg ++ 0 ∷ []) (with_zeros args) rest)
    ∙ strings_from-string [] arg (with_zeros args ++ rest) c.0
    ∙ ap (λ s. arg ∷ s) (strings_from-with_zeros args rest c.1)

strings_from-end : strings_from [] (end_word ++ 0 ∷ []) ≡ end_word ∷ []
unfolding strings_from
strings_from-end = refl

module _ {W : Type 0} (k : Kernel W) (sent : W → ℤ → List ℕ) (laws : WriteLaws k sent) where
  send_arguments-with_zeros :
      (w : W) (fd : ℤ) (args : List (List ℕ))
      → TakesAll k fd
      → sent (send_arguments k w fd args) fd ≡ sent w fd ++ with_zeros args
  unfolding send_arguments
  send_arguments-with_zeros w fd [] all = sym (append-nil _)
  send_arguments-with_zeros w fd (arg ∷ args) all =
      let r = k.sys_write w fd (arg ++ 0 ∷ []) in
      rw (all w (arg ++ 0 ∷ [])) (
        send_arguments-with_zeros r.world fd args all
        ∙ ap (λ s. s ++ with_zeros args) (sys_write-all k sent laws w fd (arg ++ 0 ∷ []) all)
        ∙ append_assoc (sent w fd) (arg ++ 0 ∷ []) (with_zeros args))

  -- Where write(2) takes all data and no argument holds a zero byte, the program appends to the
  -- stream of its socket bytes from which a receiver that splits at zero bytes finds the
  -- arguments, in order, and the word END, and nothing else; its last call does not return -1.
  pub send_request-roundtrip :
      (w : W) (fd : ℤ) (args : List (List ℕ))
      → TakesAll k fd
      → AreCStrings args
      → (bytes : List ℕ) × (sent (send_request k w fd args).world fd ≡ sent w fd ++ bytes)
        × (strings_from [] bytes ≡ args ++ end_word ∷ [])
        × ((send_request k w fd args).c ≢ minus_one)
  unfolding send_request
  send_request-roundtrip w fd args all c = (
    with_zeros args ++ (end_word ++ 0 ∷ []),
    sys_write-all k sent laws _ fd (end_word ++ 0 ∷ []) all
        ∙ ap (λ s. s ++ (end_word ++ 0 ∷ [])) (send_arguments-with_zeros w fd args all)
        ∙ append_assoc (sent w fd) (with_zeros args) (end_word ++ 0 ∷ []),
    strings_from-with_zeros args (end_word ++ 0 ∷ []) c ∙ ap (◌++◌ args) strings_from-end,
    λ e. ground (arith, e, all (send_arguments k w fd args) (end_word ++ 0 ∷ [])),
  )
