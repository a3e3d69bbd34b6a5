-- ===== src/Client/Path.antt =====
-- C strings, and the address that a client and a server make of the name of a socket
-- (libnbuss/UnixSocketClient.cpp, libnbuss/UnixSocketServer.cpp).
use nonblocking_unix_socket.Base.{
  ℕ, zero, suc, ◌-◌, ◌≤◌, ◌≡◌, ◌≢◌, inl, inr, refl, ap, ◌∙◌, false, Bool-cases, List, [], ◌∷◌, ◌++◌,
  append-nil, ◌==◌, length, length-append, take, replicate, arith,
}
use nonblocking_unix_socket.Client.{c_str, sun_path}

-- A C string holds no zero byte.
abbrev pub IsCString : List ℕ → Type 0
IsCString [] = Unit
IsCString (b ∷ bs) = (b ≢ 0) × IsCString bs

pub nonzero : (b : ℕ) → b ≢ 0 → (b == 0) ≡ false
nonzero b ne = ground arith

pub c_str-IsCString : (xs : List ℕ) → IsCString (c_str xs)
unfolding c_str
c_str-IsCString [] = tt
c_str-IsCString (b ∷ bs) = elim (Bool-cases (b == 0)) [
  | inl e ↦ rw e tt
  | inr e ↦ rw e (λ z. ground (arith, z, e), c_str-IsCString bs)
]

pub take-IsCString : (n : ℕ) (xs : List ℕ) → IsCString xs → IsCString (take n xs)
take-IsCString zero xs c = tt
take-IsCString (suc n) [] c = tt
take-IsCString (suc n) (b ∷ bs) c = (c.0, take-IsCString n bs c.1)

pub append-IsCString : (xs ys : List ℕ) → IsCString xs → IsCString ys → IsCString (xs ++ ys)
append-IsCString [] ys c d = d
append-IsCString (x ∷ xs) ys c d = (c.0, append-IsCString xs ys c.1 d)

-- A C string ends at the first zero byte behind it.
pub c_str-append : (xs ys : List ℕ) → IsCString xs → c_str (xs ++ ys) ≡ xs ++ c_str ys
unfolding c_str
c_str-append [] ys c = refl
c_str-append (b ∷ bs) ys c = rw (nonzero b c.0) (ap (λ s. b ∷ s) (c_str-append bs ys c.1))

pub length-take : {A : Type 0} (n : ℕ) (xs : List A) → length (take n xs) ≤ n
length-take zero xs = omega arith
length-take (suc n) [] = omega arith
length-take (suc n) (x ∷ xs) = omega (arith, length-take n xs)

length-replicate : {A : Type 0} (n : ℕ) (a : A) → length (replicate n a) ≡ n
length-replicate zero a = refl
length-replicate (suc n) a = ap suc (length-replicate n a)

c_str-zeros : (n : ℕ) → c_str (replicate n 0) ≡ []
unfolding c_str
c_str-zeros zero = refl
c_str-zeros (suc n) = refl

-- The path of an address has 108 bytes, and a reader of it finds the first 107 bytes of the name,
-- or all of a shorter one, whatever the name is.
sun_path-c_str :
    (name : List ℕ)
    → (length (sun_path name) ≡ 108) × (c_str (sun_path name) ≡ take 107 (c_str name))
unfolding sun_path
sun_path-c_str name =
    let copied = take 107 (c_str name) in
    let zeros = replicate (108 - length copied) 0 in
    (
      omega (
        arith,
        length-append copied zeros,
        length-replicate {A = ℕ} (108 - length copied) 0,
        length-take 107 (c_str name),
      ),
      c_str-append copied zeros (take-IsCString 107 (c_str name) (c_str-IsCString name))
          ∙ ap (λ s. copied ++ s) (c_str-zeros (108 - length copied))
          ∙ append-nil copied,
    )
