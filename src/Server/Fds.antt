-- ===== src/Server/Fds.antt =====
-- `std::set<int>` of the server (libnbuss/IGenericServer.h, `incoming_conn_fd`): what an insertion
-- and an extraction do to the members, their order and their number.
use nonblocking_unix_socket.Base.{
  suc, ◌≡◌, ◌≢◌, refl, Bool, true, false, not, ◌&&◌, ◌||◌, List, [], ◌∷◌, ℤ, ◌==ℤ◌, ltb_ℤ, ◌<ℤ◌,
  ==ℤ→eq, ==ℤ_refl, inl, inr, length, arith, Bool-cases, ltb_ℤ→lt, ltb_ℤ→ge, <ℤ_ne, <ℤ_trans,
}
use nonblocking_unix_socket.Server.{set_insert, set_extract}

unfoldable pub has_fd : ℤ → List ℤ → Bool
has_fd a [] = false
has_fd a (b ∷ bs) = a ==ℤ b || has_fd a bs

-- All entries lie above `a`.
abbrev pub AllAbove : ℤ → List ℤ → Type 0
AllAbove a [] = Unit
AllAbove a (b ∷ bs) = (a <ℤ b) × AllAbove a bs

abbrev pub IsAscending : List ℤ → Type 0
IsAscending [] = Unit
IsAscending (b ∷ bs) = AllAbove b bs × IsAscending bs

AllAbove-trans : (a b : ℤ) (xs : List ℤ) → a <ℤ b → AllAbove b xs → AllAbove a xs
AllAbove-trans a b [] h k = tt
AllAbove-trans a b (x ∷ xs) h k = (<ℤ_trans a b x h k.0, AllAbove-trans a b xs h k.1)

has_fd_above : (a : ℤ) (xs : List ℤ) → AllAbove a xs → has_fd a xs ≡ false
unfolding has_fd
has_fd_above a [] h = refl
has_fd_above a (x ∷ xs) h = rw (<ℤ_ne a x h.0) (has_fd_above a xs h.1)

AllAbove-insert : (a b : ℤ) (xs : List ℤ) → a <ℤ b → AllAbove a xs → AllAbove a (set_insert b xs)
unfolding set_insert
AllAbove-insert a b [] h k = (h, tt)
AllAbove-insert a b (x ∷ xs) h k = elim (Bool-cases (b ==ℤ x)) [
  | inl e ↦ rw e k
  | inr e ↦ elim (Bool-cases (ltb_ℤ b x)) [
    | inl l ↦ rw (e, l) (h, k)
    | inr l ↦ rw (e, l) (k.0, AllAbove-insert a b xs h k.1)
  ]
]

AllAbove-extract : (a b : ℤ) (xs : List ℤ) → AllAbove a xs → AllAbove a (set_extract b xs)
unfolding set_extract
AllAbove-extract a b [] k = tt
AllAbove-extract a b (x ∷ xs) k = elim (Bool-cases (b ==ℤ x)) [
  | inl e ↦ rw e k.1
  | inr e ↦ rw e (k.0, AllAbove-extract a b xs k.1)
]

pub insert-IsAscending : (a : ℤ) (xs : List ℤ) → IsAscending xs → IsAscending (set_insert a xs)
unfolding set_insert
insert-IsAscending a [] k = (tt, tt)
insert-IsAscending a (x ∷ xs) k = elim (Bool-cases (a ==ℤ x)) [
  | inl e ↦ rw e k
  | inr e ↦ elim (Bool-cases (ltb_ℤ a x)) [
    | inl l ↦ rw (e, l) ((ltb_ℤ→lt a x l, AllAbove-trans a x xs (ltb_ℤ→lt a x l) k.0), k)
    | inr l ↦ rw (e, l) (AllAbove-insert x a xs (ltb_ℤ→ge a x e l) k.0, insert-IsAscending a xs k.1)
  ]
]

pub extract-IsAscending : (a : ℤ) (xs : List ℤ) → IsAscending xs → IsAscending (set_extract a xs)
unfolding set_extract
extract-IsAscending a [] k = tt
extract-IsAscending a (x ∷ xs) k = elim (Bool-cases (a ==ℤ x)) [
  | inl e ↦ rw e k.1
  | inr e ↦ rw e (AllAbove-extract x a xs k.0, extract-IsAscending a xs k.1)
]

-- Insertion adds its element and keeps the others.
pub has_fd-insert : (a b : ℤ) (xs : List ℤ) → has_fd a (set_insert b xs) ≡ (a ==ℤ b || has_fd a xs)
unfolding has_fd set_insert
has_fd-insert a b [] = refl
has_fd-insert a b (x ∷ xs) = ground (arith, ==ℤ→eq b x, has_fd-insert a b xs)

-- Extraction removes its element and keeps the others.
pub has_fd-extract :
    (a b : ℤ) (xs : List ℤ)
    → IsAscending xs
    → has_fd a (set_extract b xs) ≡ (not (a ==ℤ b) && has_fd a xs)
unfolding has_fd set_extract
has_fd-extract a b [] k = ground arith
has_fd-extract a b (x ∷ xs) k = ground (
  arith,
  ==ℤ→eq b x,
  ==ℤ→eq a b,
  ==ℤ→eq a x,
  ==ℤ_refl a,
  ==ℤ_refl b,
  has_fd_above b xs,
  has_fd-extract a b xs k.1,
)

-- The others are kept whatever the order.
pub has_fd-extract_other :
    (a b : ℤ) (xs : List ℤ) → b ≢ a → has_fd a (set_extract b xs) ≡ has_fd a xs
unfolding has_fd set_extract
has_fd-extract_other a b [] ne = refl
has_fd-extract_other a b (x ∷ xs) ne =
    ground (arith, ==ℤ→eq b x, ==ℤ→eq a x, has_fd-extract_other a b xs ne)

pub length-insert :
    (a : ℤ) (xs : List ℤ) → has_fd a xs ≡ false → length (set_insert a xs) ≡ suc (length xs)
unfolding has_fd set_insert
length-insert a [] h = refl
length-insert a (x ∷ xs) h = ground (arith, length-insert a xs)

pub length-extract :
    (a : ℤ) (xs : List ℤ) → has_fd a xs ≡ true → length xs ≡ suc (length (set_extract a xs))
unfolding has_fd set_extract
length-extract a [] h = cc
length-extract a (x ∷ xs) h = ground (arith, length-extract a xs)
