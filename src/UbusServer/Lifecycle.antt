-- ===== src/UbusServer/Lifecycle.antt =====
-- The connection to the bus, from `initialize` to the destructor.
use cpe_acs_connector_tr.Base.{
  ℕ, ◌==◌, Bool, true, false, List, ◌∷◌, Option, none, some, ◌≡◌, refl, ap, ◌∙◌, inl, inr,
  Bool-cases,
}
use cpe_acs_connector_tr.UbusServer.{
  Ubus, UbusServer, new_server, register, with_context, initialize, destroy,
}

-- What the code relies on of the bus: the connections that are open, the last first.
pub record Connections (U : Type 0) (ubus : Ubus U) : Type 0 where
  pub open_in : U → List ℕ
  pub uloop_init_keeps : (s : U) → open_in (ubus.uloop_init s).1 ≡ open_in s
  pub uloop_done_keeps : (s : U) → open_in (ubus.uloop_done s) ≡ open_in s
  pub connect_opens :
      (s : U) (c : ℕ) → (ubus.connect s).0 ≡ some c → open_in (ubus.connect s).1 ≡ c ∷ open_in s
  pub connect_fails : (s : U) → (ubus.connect s).0 ≡ none → open_in (ubus.connect s).1 ≡ open_in s
  pub add_uloop_keeps : (s : U) (c : ℕ) → open_in (ubus.add_uloop s c) ≡ open_in s
  pub add_object_keeps : (s : U) (c : ℕ) → open_in (ubus.add_object s c).1 ≡ open_in s
  pub remove_object_keeps : (s : U) (c : ℕ) → open_in (ubus.remove_object s c) ≡ open_in s
  pub free_closes :
      (s : U) (c : ℕ) (rest : List ℕ) → open_in s ≡ c ∷ rest → open_in (ubus.free s c) ≡ rest

module _ {U : Type 0} (ubus : Ubus U) (known : Connections U ubus) where
  open known use {open_in}

  -- What `initialize` leaves of a new server in `s`: a connection, whatever the result is, or none
  -- and a failure. Calls are accepted where it succeeded, and only there.
  pub data Initialized (s : U) : Bool × UbusServer × U → Type 0 where
    unconnected : (s' : U) → open_in s' ≡ open_in s → Initialized s (false, new_server, s')
    connected :
        (b : Bool) (c : ℕ) (s' : U)
        → open_in s' ≡ c ∷ open_in s
        → Initialized s (b, record { context = some c; object = true; instance = b }, s')

  register-Initialized :
      (s s' : U) (c : ℕ)
      → open_in s' ≡ c ∷ open_in s
      → Initialized s (register ubus new_server s' c)
  unfolding register
  register-Initialized s s' c opened =
      let added = ubus.add_object (ubus.add_uloop s' c) c in
      let opened' =
        known.add_object_keeps (ubus.add_uloop s' c) c ∙ known.add_uloop_keeps s' c ∙ opened in
      elim (Bool-cases (added.0 == 0)) [
        | inl e ↦ rw e (connected true c added.1 opened')
        | inr e ↦ rw e (connected false c added.1 opened')
      ]

  with_context-Initialized :
      (s s0 s' : U) (o : Option ℕ)
      → open_in s0 ≡ open_in s
      → ubus.connect s0 ≡ (o, s')
      → Initialized s (with_context ubus new_server (o, s'))
  with_context-Initialized s s0 s' none kept e =
      unconnected (ubus.uloop_done s')
        (known.uloop_done_keeps s' ∙ rw e at (known.connect_fails s0 (ap (λ r. r.0) e)) ∙ kept)
  with_context-Initialized s s0 s' (some c) kept e =
      register-Initialized s s' c
        (rw e at (known.connect_opens s0 c (ap (λ r. r.0) e)) ∙ ap (λ l. c ∷ l) kept)

  initialize-Initialized : (s : U) → Initialized s (initialize ubus new_server s)
  unfolding initialize
  initialize-Initialized s =
      let ready = ubus.uloop_init s in
      let kept = known.uloop_init_keeps s in
      elim (Bool-cases (ready.0 == 0)) [
        | inl e ↦ rw e (
            with_context-Initialized s ready.1 (ubus.connect ready.1).1 (ubus.connect ready.1).0
              kept refl)
        | inr e ↦ rw e (unconnected ready.1 kept)
      ]

  -- What the destructor leaves of what `initialize` has made.
  abbrev Cleaned : U → Bool × UbusServer × U → Type 0
  Cleaned s (b, u, s') =
      let (u', s'') = destroy ubus u s' in
      (u.instance ≡ b) × (open_in s'' ≡ open_in s) × (u'.instance ≡ false)

  Initialized-Cleaned : (s : U) {r : Bool × UbusServer × U} → Initialized s r → Cleaned s r
  unfolding destroy
  Initialized-Cleaned s (unconnected s' kept) = (refl, known.uloop_done_keeps s' ∙ kept, refl)
  Initialized-Cleaned s (connected b c s' opened) =
      let gone = ubus.remove_object s' c in
      (
        refl,
        known.uloop_done_keeps (ubus.free gone c)
            ∙ known.free_closes gone c (open_in s) (known.remove_object_keeps s' c ∙ opened),
        refl,
      )

  -- Whatever the calls of the bus return, a server accepts method calls exactly when `initialize`
  -- has succeeded, and the destructor then leaves no connection open that was not open before, and
  -- no pointer to the server.
  pub destroy-initialize :
      (s : U)
      → let (b, u, s') = initialize ubus new_server s in
        let (u', s'') = destroy ubus u s' in
        (u.instance ≡ b) × (open_in s'' ≡ open_in s) × (u'.instance ≡ false)
  destroy-initialize s = Initialized-Cleaned s (initialize-Initialized s)
