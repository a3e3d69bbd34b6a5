-- ===== src/StateMachine/Table.antt =====
-- The table of libnbuss/FiniteStateMachine.h: when its order makes no difference.
use nonblocking_unix_socket.Base.{
  ℕ, ◌+◌, ◌≤◌, ◌≡◌, ◌⊎◌, ◌&&◌, ◌++◌, true, false, refl, ap, ◌∙◌, inl, inr, Bool, List, [], ◌∷◌,
  Option, none, some, if◌then◌else◌, Bool-cases, arith, subst,
}
use mathlib.Core.List.{Permᴰ}
use nonblocking_unix_socket.StateMachine.{
  Row, StateMachine, Ran, finished, threw, is_match, first_match, incoming_event, set_data, fire,
}

module _ {S E A : Type 0} (same_state : S → S → Bool) (same_event : E → E → Bool) where
  -- How many rows match.
  abbrev pub matches : List (Row S E A) → S → E → ℕ
  matches [] state ev = 0
  matches (row ∷ rows) state ev =
      (if is_match same_state same_event row state ev then 1 else 0) + matches rows state ev

  matches-perm :
      (state : S) (ev : E) {rows rows' : List (Row S E A)}
      → Permᴰ rows rows'
      → matches rows state ev ≡ matches rows' state ev
  matches-perm state ev Permᴰ.nil = refl
  matches-perm state ev (Permᴰ.cons e p) = rw (e, matches-perm state ev p) refl
  matches-perm state ev (Permᴰ.swap e f) = rw (e, f) (omega arith)
  matches-perm state ev (Permᴰ.trans p q) = matches-perm state ev p ∙ matches-perm state ev q

  first_match-perm :
      (state : S) (ev : E) {rows rows' : List (Row S E A)}
      → Permᴰ rows rows'
      → matches rows state ev ≤ 1
      → first_match same_state same_event rows state ev
        ≡ first_match same_state same_event rows' state ev
  unfolding first_match
  first_match-perm state ev Permᴰ.nil one = refl
  first_match-perm state ev (Permᴰ.cons {a} {b} e p) one =
      elim (Bool-cases (is_match same_state same_event a state ev)) [
        | inl t ↦ rw (← e, t) refl
        | inr t ↦ rw (← e, t) (first_match-perm state ev p (omega (arith, rw t at one)))
      ]
  first_match-perm state ev (Permᴰ.swap {a} {b} {a'} {b'} e f) one =
      elim (Bool-cases (is_match same_state same_event a state ev)) [
        | inr t ↦ rw (← e, ← f, t) refl
        | inl t ↦ elim (Bool-cases (is_match same_state same_event b state ev)) [
          | inl u ↦ absurd (omega (arith, rw (t, u) at one))
          | inr u ↦ rw (← e, ← f, t, u) refl
        ]
      ]
  first_match-perm state ev (Permᴰ.trans p q) one =
      first_match-perm state ev p one
      ∙ first_match-perm state ev q (subst (λ n. n ≤ 1) (matches-perm state ev p) one)

module _ {S E A W : Type 0} (same_state : S → S → Bool) (same_event : E → E → Bool)
    (run : A → StateMachine S E A → W → Ran S E A W) where
  -- The same with another table in the machine.
  unfoldable pub with_table : List (Row S E A) → Ran S E A W → Ran S E A W
  with_table rows (finished m w) = finished (set_data m rows) w
  with_table rows (threw m w) = threw (set_data m rows) w

  -- The actions neither read nor replace the table.
  abbrev pub LeaveTable : Type 0
  LeaveTable =
      (action : A) (m : StateMachine S E A) (rows : List (Row S E A)) (w : W)
      → with_table rows (run action m w) ≡ run action (set_data m rows) w

  fire-table :
      (m : StateMachine S E A) (rows : List (Row S E A)) (w : W) (found : Option A)
      → LeaveTable
      → with_table rows (fire same_state same_event run m w found)
        ≡ fire same_state same_event run (set_data m rows) w found
  unfolding fire with_table
  fire-table m rows w none leave = refl
  fire-table m rows w (some action) leave = leave action m rows w

  -- Where no two rows match the machine's state and the event, and the actions neither read nor
  -- replace the table, its order makes no difference to what the event does, also where it is
  -- refused.
  incoming_event-perm :
      (m : StateMachine S E A) (rows : List (Row S E A)) (w : W) (ev : E)
      → LeaveTable
      → Permᴰ m.rows rows
      → matches same_state same_event m.rows m.state ev ≤ 1
      → with_table rows (incoming_event same_state same_event run m w ev)
        ≡ incoming_event same_state same_event run (set_data m rows) w ev
  unfolding incoming_event set_data
  incoming_event-perm m rows w ev leave p one =
      fire-table m rows w (first_match same_state same_event m.rows m.state ev) leave
      ∙ ap (fire same_state same_event run (set_data m rows) w)
          (first_match-perm same_state same_event m.state ev p one)

  -- No row is one of this state and this event.
  abbrev pub AllApart : List (Row S E A) → S → E → Type 0
  AllApart [] state ev = Unit
  AllApart (row ∷ rows) state ev =
      ((same_state state row.state && same_event row.event ev) ≡ false) × AllApart rows state ev

  -- The first row of this state and this event is `row`.
  abbrev pub IsFirst : List (Row S E A) → S → E → Row S E A → Type 0
  IsFirst rows state ev row =
      (before : List (Row S E A)) × (after : List (Row S E A)) × (rows ≡ before ++ row ∷ after)
      × AllApart before state ev
      × (same_state state row.state ≡ true)
      × (same_event row.event ev ≡ true)

  both_parts : (a b : Bool) → (a && b) ≡ true → (a ≡ true) × (b ≡ true)
  both_parts true true e = (refl, refl)
  both_parts true false e = cc e
  both_parts false b e = cc e

  first_match-IsFirst :
      (rows : List (Row S E A)) (state : S) (ev : E)
      → (AllApart rows state ev × (first_match same_state same_event rows state ev ≡ none))
        ⊎ ((row : Row S E A) × IsFirst rows state ev row
            × (first_match same_state same_event rows state ev ≡ some (row.action)))
  unfolding first_match
  first_match-IsFirst [] state ev = inl (tt, refl)
  first_match-IsFirst (row ∷ rows) state ev =
      elim (Bool-cases (same_state state row.state && same_event row.event ev)) [
        | inl e ↦
            let (one, two) = both_parts _ _ e in
            inr (row, ([], rows, refl, tt, one, two), rw e refl)
        | inr e ↦ elim (first_match-IsFirst rows state ev) [
          | inl (apart, absent) ↦ inl ((e, apart), rw e absent)
          | inr (found, (before, after, split, apart, one, two), present) ↦ inr (
            found,
            (row ∷ before, after, ap (λ rs. row ∷ rs) split, (e, apart), one, two),
            rw e present,
          )
        ]
      ]

  -- Either no row of the table is one of the machine's state and the event, and incomingEvent
  -- throws and changes nothing, or there is a first row that is, with none before it, and the call
  -- is a run of that row's action.
  pub incoming_event-IsFirst :
      (m : StateMachine S E A) (w : W) (ev : E)
      → (AllApart m.rows m.state ev × (incoming_event same_state same_event run m w ev ≡ threw m w))
        ⊎ ((row : Row S E A) × IsFirst m.rows m.state ev row
            × (incoming_event same_state same_event run m w ev ≡ run row.action m w))
  unfolding incoming_event fire
  incoming_event-IsFirst m w ev = elim (first_match-IsFirst m.rows m.state ev) [
    | inl (apart, absent) ↦ inl (apart, rw absent refl)
    | inr (row, first, present) ↦ inr (row, first, rw present refl)
  ]
