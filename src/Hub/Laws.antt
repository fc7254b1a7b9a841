-- ===== src/Hub/Laws.antt =====
-- What a call of pkg/managerruntime/daemonhub.go does to a registered daemon.
use hybridnet.Base.{
  ◌≡◌, ◌∙◌, sym, subst, inl, inr, false, Bool-cases, Option-cases, Option, none, some, String,
  str_eq, eq_iff, arith,
}
use hybridnet.Base.Dict.{
  Dict, has, lookup, insert, delete, lookup-insert, lookup-delete, has_of_lookup,
}
use hybridnet.Hub.{
  Daemon, Call, registers, unregisters, runs, stops, call, register, unregister, run, stop,
}

-- What a call leaves of the daemon `d` that is registered under `id`.
pub data Fate {D : Type 0} (ops : Daemon D) (id : String) (d : D) : Call D → Option D → Type 0 where
  kept : {c : Call D} → Fate ops id d c (some d)
  ran : Fate ops id d (runs id) (some (ops.run d).0)
  stopped : Fate ops id d (stops id) (some (ops.stop d).0)
  gone : ops.running d ≡ false → Fate ops id d (unregisters id) none

module _ {D : Type 0} (ops : Daemon D) (id : String) (d : D) (hub : Dict D)
    (here : lookup id hub ≡ some d) where
  other_insert :
      (other : String) (v : D) → str_eq other id ≡ false → lookup id (insert other v hub) ≡ some d
  other_insert other v ne = lookup-insert other id v hub ∙ rw (ne) here

  same_insert : (v : D) → lookup id (insert id v hub) ≡ some v
  same_insert v = lookup-insert id id v hub ∙ ground (arith, eq_iff id id)

  register-Fate :
      (other : String) (daemon : Option D)
      → Fate ops id d (registers other daemon) (lookup id (register other daemon hub).0)
  unfolding register
  register-Fate other none = rw (here) kept
  register-Fate other (some daemon) = elim (Bool-cases (has other hub)) [
    | inl e ↦ rw (e, here) kept
    | inr e ↦
        let ne : str_eq other id ≡ false =
          ground (arith, eq_iff other id, has_of_lookup id hub d here, e) in
        rw (e, other_insert other daemon ne) kept
  ]

  other_delete : (other : String) → str_eq other id ≡ false → lookup id (delete other hub) ≡ some d
  other_delete other ne = lookup-delete other id hub ∙ rw (ne) here

  same_delete : lookup id (delete id hub) ≡ none
  same_delete = lookup-delete id id hub ∙ ground (arith, eq_iff id id)

  unregister_same : Fate ops id d (unregisters id) (lookup id (unregister ops id hub).0)
  unfolding unregister
  unregister_same = elim (Bool-cases (ops.running d)) [
    | inl e ↦ rw (unregister, here, e) (rw (here) kept)
    | inr e ↦ rw (unregister, here, e, same_delete) (gone e)
  ]

  unregister_other :
      (other : String)
      → str_eq other id ≡ false
      → Fate ops id d (unregisters other) (lookup id (unregister ops other hub).0)
  unfolding unregister
  unregister_other other ne = elim (Option-cases (lookup other hub)) [
    | inl e ↦ rw (unregister, e, here) kept
    | inr (v, e) ↦ elim (Bool-cases (ops.running v)) [
      | inl f ↦ rw (unregister, e, f, here) kept
      | inr f ↦ rw (unregister, e, f, other_delete other ne) kept
    ]
  ]

  run_same : Fate ops id d (runs id) (lookup id (run ops id hub).0)
  unfolding run
  run_same = rw (run, here, same_insert (ops.run d).0) ran

  run_other :
      (other : String)
      → str_eq other id ≡ false
      → Fate ops id d (runs other) (lookup id (run ops other hub).0)
  unfolding run
  run_other other ne = elim (Option-cases (lookup other hub)) [
    | inl e ↦ rw (run, e, here) kept
    | inr (v, e) ↦ rw (run, e, other_insert other (ops.run v).0 ne) kept
  ]

  stop_same : Fate ops id d (stops id) (lookup id (stop ops id hub).0)
  unfolding stop
  stop_same = rw (stop, here, same_insert (ops.stop d).0) stopped

  stop_other :
      (other : String)
      → str_eq other id ≡ false
      → Fate ops id d (stops other) (lookup id (stop ops other hub).0)
  unfolding stop
  stop_other other ne = elim (Option-cases (lookup other hub)) [
    | inl e ↦ rw (stop, e, here) kept
    | inr (v, e) ↦ rw (stop, e, other_insert other (ops.stop v).0 ne) kept
  ]

  -- A method of one id, by its two cases.
  at_id :
      (c : String → Call D)
      → Fate ops id d (c id) (lookup id (call ops (c id) hub).0)
      → ((other : String)
          → str_eq other id ≡ false
          → Fate ops id d (c other) (lookup id (call ops (c other) hub).0))
      → (other : String) → Fate ops id d (c other) (lookup id (call ops (c other) hub).0)
  at_id c same differs other = elim (Bool-cases (str_eq other id)) [
    | inl e ↦
        subst (λ o. Fate ops id d (c o) (lookup id (call ops (c o) hub).0))
          (sym ((eq_iff other id).0 e)) same
    | inr e ↦ differs other e
  ]

  -- A call of the hub keeps a registered daemon as it is, or it is the Run or the Stop of this daemon, whose
  -- result is registered then, or it is its Unregister, and then the daemon was not running.
  pub call-Fate : (c : Call D) → Fate ops id d c (lookup id (call ops c hub).0)
  call-Fate (registers other daemon) = register-Fate other daemon
  call-Fate (unregisters other) = at_id unregisters unregister_same unregister_other other
  call-Fate (runs other) = at_id runs run_same run_other other
  call-Fate (stops other) = at_id stops stop_same stop_other other
