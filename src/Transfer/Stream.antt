-- ===== src/Transfer/Stream.antt =====
-- What the write loop does to the stream of bytes on the descriptor.
use nonblocking_unix_socket.Base.{
  ℕ, zero, suc, ◌+◌, ◌≤◌, ◌≡◌, ◌≢◌, ◌⊎◌, inl, inr, refl, sym, ap, ◌∙◌, if◌then◌else◌, List, [], ◌∷◌,
  ◌++◌, ℤ, pos, minus_one, pos_part, true, Bool-cases, length, take, drop, take-add, length-drop,
  append_assoc, append-nil, arith,
}
use nonblocking_unix_socket.Kernel.{Kernel, WriteLaws}
use nonblocking_unix_socket.Transfer.{LoopEnd, is_partial, write_loop}

-- What is left after a partial call is less than before, by at least a byte.
drop_lt :
    {W : Type 0} (k : Kernel W) (c : ℤ) (p : List ℕ) (fuel : ℕ)
    → is_partial k c p ≡ true
    → length p ≤ suc fuel
    → length (drop (pos_part c) p) ≤ fuel
drop_lt k (pos n) p fuel part fits = ground (arith, length-drop n p)
drop_lt k (ℤ.negsuc n) p fuel part fits = ground arith

module _ {W : Type 0} (k : Kernel W) where
  fuel_enough :
      (f g : ℕ) (w : W) (fd : ℤ) (p : List ℕ) (before : ℕ)
      → length p ≤ f
      → length p ≤ g
      → write_loop k f w fd p before ≡ write_loop k g w fd p before
  unfolding write_loop
  fuel_enough zero zero w fd p before hf hg = refl
  fuel_enough zero (suc g) w fd [] before hf hg = ground arith
  fuel_enough zero (suc g) w fd (x ∷ p) before hf hg = absurd (omega arith)
  fuel_enough (suc f) zero w fd [] before hf hg = ground arith
  fuel_enough (suc f) zero w fd (x ∷ p) before hf hg = absurd (omega arith)
  fuel_enough (suc f) (suc g) w fd p before hf hg =
      let r = k.sys_write w fd p in
      elim (Bool-cases (is_partial k r.c p)) [
        | inl e ↦ rw e (
            fuel_enough f g r.world fd (drop (pos_part r.c) p) (before + pos_part r.c)
              (drop_lt k r.c p f e hf) (drop_lt k r.c p g e hg))
        | inr e ↦ rw e
      ]

  -- The loop of a write on fuel for its data is a call of the system, and the loop again on the
  -- rest of the data if the call was partial.
  pub transfer_unroll :
      (w : W) (fd : ℤ) (p : List ℕ) (before : ℕ)
      → let r = k.sys_write w fd p in
        let n = pos_part r.c in
        write_loop k (length p) w fd p before ≡ (
          if is_partial k r.c p
          then write_loop k (length (drop n p)) r.world fd (drop n p) (before + n)
          else record { last = r; before = before })
  unfolding write_loop
  transfer_unroll w fd [] before = ground arith
  transfer_unroll w fd (x ∷ p) before =
      let r = k.sys_write w fd (x ∷ p) in
      elim (Bool-cases (is_partial k r.c (x ∷ p))) [
        | inl e ↦ rw e (
            fuel_enough (length p) _ r.world fd (drop (pos_part r.c) (x ∷ p))
              (before + pos_part r.c) (drop_lt k r.c (x ∷ p) (length p) e (omega arith))
              (omega arith))
        | inr e ↦ rw e
      ]

module _ {W : Type 0} (k : Kernel W) (sent : W → ℤ → List ℕ) (laws : WriteLaws k sent) where
  -- The loop has put the first `count` bytes of the data on the stream of `fd`, and nothing on any
  -- other; the bytes of the last call are not in `before` yet.
  pub record Sends (w : W) (fd : ℤ) (p : List ℕ) (base : ℕ) (e : LoopEnd W) : Type 0 where
    pub count : ℕ
    pub bounded : count ≤ length p
    pub counted : e.before + pos_part e.c ≡ base + count
    pub stream : sent e.world fd ≡ sent w fd ++ take count p
    pub apart : (other : ℤ) → fd ≢ other → sent e.world other ≡ sent w other
    pub result : (e.c ≡ minus_one) ⊎ (e.c ≡ pos (pos_part e.c))
    pub last_call : (reached : W) × (rest : List ℕ) × (e.last ≡ k.sys_write reached fd rest)

  call-Sends :
      (w : W) (fd : ℤ) (p : List ℕ) (base : ℕ)
      → Sends w fd p base (record { last = k.sys_write w fd p; before = base })
  call-Sends w fd p base = elim (laws.write_takes w fd p) [
    | inl (c, s) ↦ record {
      count = 0;
      bounded = omega arith;
      counted = ground arith;
      stream = s ∙ sym (append-nil _);
      apart = λ other ne. laws.write_apart w fd other p ne;
      result = inl c;
      last_call = (w, p, refl);
    }
    | inr (n, fits, c, s) ↦ record {
      count = n;
      bounded = fits;
      counted = ground arith;
      stream = s;
      apart = λ other ne. laws.write_apart w fd other p ne;
      result = inr (ground arith);
      last_call = (w, p, refl);
    }
  ]

  -- A partial call, and then the loop on the rest of the data.
  append-Sends :
      (w : W) (fd : ℤ) (p : List ℕ) (base n : ℕ) {e : LoopEnd W}
      → pos_part (k.sys_write w fd p).c ≡ n
      → Sends (k.sys_write w fd p).world fd (drop n p) (base + n) e
      → Sends w fd p base e
  append-Sends w fd p base n {e} c rest = record {
    count = n + rest.count;
    bounded = omega (arith, same, first.bounded, length-drop n p);
    counted = omega arith;
    stream =
        rest.stream
        ∙ ap (λ s. s ++ take rest.count (drop n p))
            (first.stream ∙ ap (λ m. sent w fd ++ take m p) same)
        ∙ append_assoc (sent w fd) (take n p) (take rest.count (drop n p))
        ∙ ap (◌++◌ (sent w fd)) (take-add n rest.count p);
    apart = λ other ne. rest.apart other ne ∙ first.apart other ne;
    result = rest.result;
    last_call = rest.last_call;
  }
    where
      first : Sends w fd p base (record { last = k.sys_write w fd p; before = base })
      first = call-Sends w fd p base

      same : first.count ≡ n
      same = omega (arith, first.counted)

  pub loop-Sends :
      (fuel : ℕ) (w : W) (fd : ℤ) (p : List ℕ) (base : ℕ)
      → Sends w fd p base (write_loop k fuel w fd p base)
  unfolding write_loop
  loop-Sends zero w fd p base = call-Sends w fd p base
  loop-Sends (suc fuel) w fd p base = elim (Bool-cases (is_partial k (k.sys_write w fd p).c p)) [
    | inr e ↦ rw e (call-Sends w fd p base)
    | inl e ↦ rw e (append-Sends w fd p base _ refl (loop-Sends fuel _ fd _ _))
  ]
