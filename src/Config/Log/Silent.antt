-- ===== src/Config/Log/Silent.antt =====
-- The log of a change of the configuration, against the members that changed.
use cpe_acs_connector_tr.Base.{
  ℕ, suc, ◌<◌, ◌^◌, Bool, true, false, List, [], ◌∷◌, ◌++◌, some, ◌≡◌, ◌↔◌, ◌⊎◌, inl, inr, refl, ap,
  ◌∙◌, arith, ltb, Bool-cases, Bytes, codes, equal, equal_iff, stoul, stoul-to_string, to_string,
  length,
}
use cpe_acs_connector_tr.Config.{LogLevel, info, DaemonConfig}
use cpe_acs_connector_tr.Config.Log.{
  bool_text, log_config_change, Change, log_changes, config_changes, log_config_diff,
}
use cpe_acs_connector_tr.Logger.{rank, log, log_all}

-- Both texts of each change are equal.
abbrev AllSame : List Change → Type 0
AllSame [] = Unit {0}
AllSame ((key, before, after) ∷ changes) = (before ≡ after) × AllSame changes

append_nil_iff {ℓ} : {A : Type ℓ} (xs ys : List A) → (xs ++ ys ≡ []) ↔ ((xs ≡ []) × (ys ≡ []))
append_nil_iff [] ys = ((λ e. (refl, e)), λ (_, e). e)
append_nil_iff (x ∷ xs) ys = ((λ e. cc), λ (e, _). cc)

log_config_change_nil :
    (key before after : Bytes) → (log_config_change key before after ≡ []) ↔ (before ≡ after)
unfolding log_config_change
log_config_change_nil key before after = elim (Bool-cases (equal before after)) [
  | inl e ↦ rw e ((λ h. (equal_iff before after).0 e), λ h. refl)
  | inr e ↦ rw e ((λ h. cc), λ h. cc ((equal_iff before after).1 h))
]

log_changes-AllSame : (changes : List Change) → (log_changes changes ≡ []) ↔ AllSame changes
unfolding log_changes
log_changes-AllSame [] = ((λ e. tt), λ e. refl)
log_changes-AllSame ((key, before, after) ∷ changes) =
    let split = append_nil_iff (log_config_change key before after) (log_changes changes) in
    let first = log_config_change_nil key before after in
    let rest = log_changes-AllSame changes in
    ((λ h. (first.0 (split.0 h).0, rest.0 (split.0 h).1)), λ (e, h). split.1 (first.1 e, rest.1 h))

bool_text-injective : (a b : Bool) → bool_text a ≡ bool_text b → a ≡ b
unfolding bool_text codes
bool_text-injective true true e = refl
bool_text-injective false false e = refl
bool_text-injective true false e = cc
bool_text-injective false true e = cc

stoul_small : (n : ℕ) → n < 2 ^ 32 → stoul (to_string n) ≡ some (n, length (to_string n))
stoul_small n low = stoul-to_string n ∙ ground arith

to_string-injective : (m n : ℕ) → m < 2 ^ 32 → n < 2 ^ 32 → to_string m ≡ to_string n → m ≡ n
to_string-injective m n low low' e = cc (ap stoul e, stoul_small m low, stoul_small n low')

-- The members that the log tells of.
abbrev pub SameLogged : DaemonConfig → DaemonConfig → Type 0
SameLogged a b =
    (a.enable_cwmp ≡ b.enable_cwmp)
    × (a.acs_url ≡ b.acs_url)
    × (a.periodic_enable ≡ b.periodic_enable)
    × (a.periodic_interval ≡ b.periodic_interval)
    × (a.periodic_inform_time ≡ b.periodic_inform_time)
    × (a.mock_mode ≡ b.mock_mode)
    × (a.bootstrap_done ≡ b.bootstrap_done)
    × (a.pending_reboot_event ≡ b.pending_reboot_event)
    × (a.connection_request_enable ≡ b.connection_request_enable)
    × (a.connection_request.bind_address ≡ b.connection_request.bind_address)
    × (a.connection_request.port ≡ b.connection_request.port)
    × (a.connection_request.auth ≡ b.connection_request.auth)

-- The two numbers are of 32 bits.
abbrev pub InRange : DaemonConfig → Type 0
InRange c = (c.periodic_interval < 2 ^ 32) × (c.connection_request.port < 2 ^ 32)

AllSame-SameLogged :
    (a b : DaemonConfig) → InRange a → InRange b → AllSame (config_changes a b) ↔ SameLogged a b
unfolding config_changes
AllSame-SameLogged a b (ia, pa) (ib, pb) = (
  (λ (e1, (e2, (e3, (e4, (e5, (e6, (e7, (e8, (e9, (e10, (e11, (e12, _)))))))))))). (
    bool_text-injective a.enable_cwmp b.enable_cwmp e1,
    e2,
    bool_text-injective a.periodic_enable b.periodic_enable e3,
    to_string-injective a.periodic_interval b.periodic_interval ia ib e4,
    e5,
    bool_text-injective a.mock_mode b.mock_mode e6,
    bool_text-injective a.bootstrap_done b.bootstrap_done e7,
    bool_text-injective a.pending_reboot_event b.pending_reboot_event e8,
    bool_text-injective a.connection_request_enable b.connection_request_enable e9,
    e10,
    to_string-injective a.connection_request.port b.connection_request.port pa pb e11,
    e12,
  )),
  λ (e1, e2, e3, e4, e5, e6, e7, e8, e9, e10, e11, e12). (
    ap bool_text e1,
    (
      e2,
      (
        ap bool_text e3,
        (
          ap to_string e4,
          (
            e5,
            (
              ap bool_text e6,
              (
                ap bool_text e7,
                (ap bool_text e8, (ap bool_text e9, (e10, (ap to_string e11, (e12, tt))))),
              ),
            ),
          ),
        ),
      ),
    ),
  ),
)

log_all_hidden :
    (current : LogLevel) (now : ℕ → Bytes)
    → ltb (rank info) (rank current) ≡ true
    → (n : ℕ) (messages : List Bytes) → log_all current now info n messages ≡ []
unfolding log_all log
log_all_hidden current now e n [] = refl
log_all_hidden current now e n (m ∷ ms) = rw e (log_all_hidden current now e (suc n) ms)

ltb_sound : (m n : ℕ) → ltb m n ≡ true → m < n
ltb_sound m n e = ground arith

ltb_apart : (m n : ℕ) → ltb m n ≡ false → m < n → ⊥
ltb_apart m n e h = ground arith

-- Nothing is written of the messages just where there are none, or the level hides them.
log_all_nil :
    (current : LogLevel) (now : ℕ → Bytes) (n : ℕ) (messages : List Bytes)
    → (log_all current now info n messages ≡ []) ↔ ((1 < rank current) ⊎ (messages ≡ []))
unfolding log_all log rank
log_all_nil current now n messages = elim (Bool-cases (ltb (rank info) (rank current))) [
  | inl e ↦
      ((λ h. inl (ltb_sound 1 (rank current) e)), λ h. log_all_hidden current now e n messages)
  | inr e ↦ go messages e
]
  where
    go :
        (ms : List Bytes)
        → ltb (rank info) (rank current) ≡ false
        → (log_all current now info n ms ≡ []) ↔ ((1 < rank current) ⊎ (ms ≡ []))
    go [] e = ((λ h. inr refl), λ h. refl)
    go (m ∷ ms) e = rw e (
      (λ h. cc),
      λ (k : (1 < rank current) ⊎ (m ∷ ms ≡ [])). elim k [
        | inl high ↦ absurd (ground (arith, ltb_apart 1 (rank current) e))
        | inr h ↦ cc
      ],
    )

-- A change of the configuration leaves the log as it is exactly when the level is above info or
-- the configurations agree in the twelve members that the log tells of: there is a line for every
-- other change of them, and none for a change of a password. Interval and port are of 32 bits.
pub log_config_diff-SameLogged :
    (current : LogLevel) (now : ℕ → Bytes) (before after : DaemonConfig)
    → InRange before
    → InRange after
    → (log_all current now info 0 (log_config_diff before after) ≡ [])
      ↔ ((1 < rank current) ⊎ SameLogged before after)
unfolding log_config_diff
log_config_diff-SameLogged current now before after in_range in_range' =
    let shown = log_all_nil current now 0 (log_config_diff before after) in
    let same = log_changes-AllSame (config_changes before after) in
    let members = AllSame-SameLogged before after in_range in_range' in
    ground (arith, shown, same, members)
