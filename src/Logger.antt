-- ===== src/Logger.antt =====
-- libnbuss/Logger.h and Logger.cpp: the set-up of the log, which happens once. The library that
-- writes the log is a record of functions on its state `L`.
use nonblocking_unix_socket.Base.{
  ℕ, ◌*◌, ◌≡◌, ap, ◌∙◌, inl, inr, refl, Bool, true, Bool-cases, leb, if◌then◌else◌,
}

-- The functions of boost::log that are called. The file sink is given the sizes at which it starts
-- a new file and at which it is full.
pub record BoostLog (L : Type 0) : Type 0 where
  pub register_severity_formatter : L → L
  pub add_console_log : L → L
  pub add_file_log : L → ℕ → ℕ → L
  pub add_common_attributes : L → L
  pub set_filter : L → (ℕ → Bool) → L

-- `is_logger_initialized`, and the state of boost::log.
pub record Logger (L : Type 0) : Type 0 where
  pub is_logger_initialized : Bool
  pub log : L

-- `boost::log::trivial::info`
abbrev info : ℕ
info = 2

module _ {L : Type 0} (boost : BoostLog L) (is_debug : Bool) where
  -- What is done the first time. `is_debug`: whether `_DEBUG` is defined.
  unfoldable pub set_up : L → L
  set_up l =
      let a = boost.add_console_log (boost.register_severity_formatter l) in
      let b = boost.add_file_log a (1 * 1024 * 1024) (20 * 1024 * 1024) in
      let c = boost.add_common_attributes b in
      if is_debug then c else boost.set_filter c (λ severity. leb info severity)

  unfoldable pub init_log : Logger L → Logger L
  unfolding set_up
  init_log s =
      if s.is_logger_initialized
      then s
      else record { is_logger_initialized = true; log = set_up s.log }

  unchanged : (s : Logger L) → s.is_logger_initialized ≡ true → init_log s ≡ s
  unfolding init_log
  unchanged s e =
      ap (λ b. if b then s else record { is_logger_initialized = true; log = set_up s.log }) e

  initialized : (s : Logger L) → (init_log s).is_logger_initialized ≡ true
  unfolding init_log
  initialized s = elim (Bool-cases s.is_logger_initialized) [
    | inl e ↦ ap (λ t. t.is_logger_initialized) (unchanged s e) ∙ e
    | inr e ↦ rw e refl
  ]

  -- A second call changes nothing.
  init_log_twice : (s : Logger L) → init_log (init_log s) ≡ init_log s
  init_log_twice s = unchanged (init_log s) (initialized s)
