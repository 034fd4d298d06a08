-- ===== src/Bond/Update.antt =====
-- SystemConfiguration/BondConfiguration.c, `_SCBondInterfaceUpdateConfiguration`: the kernel's bonds are
-- brought in line with the configured ones. `config` and `active` are what `SCBondInterfaceCopyAll` and
-- `_SCBondInterfaceCopyActive` give, `[]` for `NULL`.
pub mod Changes
pub mod Loops
pub mod Others
pub mod Bodies
pub mod Own
pub mod Names
pub mod Realized
use configd_extra.Base.{
  ℕ, Bool, true, false, not, ◌&&◌, ◌||◌, List, [], ◌∷◌, Option, none, some, if◌then◌else◌,
}
use configd_extra.Base.Int.{ℤ}
use configd_extra.Bond.State.{
  is_among, Interfaces, Bond, Request, set_mode_of, add_member, remove_member, BondKernel,
  mode_number, equal_mode, status_ok, invalid_argument,
}

-- The local variables `s` (whether the socket is open) and `ok`, the thread's error, which is
-- `status_ok` while no call has failed, and the system.
pub record Progress (W : Type 0) : Type 0 where
  pub socket : Bool
  pub ok : Bool
  pub sc_error : ℕ
  pub world : W

-- `goto done` ends the function.
pub data Flow (S : Type 0) : Type 0 where
  next : S → Flow S
  done : S → Flow S

infixl 5 ◌>>=◌
abbrev pub ◌>>=◌ : {S : Type 0} → Flow S → (S → Flow S) → Flow S
next s >>= f = f s
done s >>= f = done s

module _ {W : Type 0} where
  -- The result of a request, if it counts.
  unfoldable pub checked : Bool × Progress W → Progress W
  checked (succeeded, p) = if succeeded then p else record p { ok = false }

  abbrev pub end_of : Flow (Progress W) → Progress W
  end_of (next p) = p
  end_of (done p) = p

module _ {Key W : Type 0} (kernel : BondKernel Key W) where
  -- What a call of the system leaves: with a failure the error is kept.
  unfoldable pub after_call : W × Bool → Progress W → Bool × Progress W
  after_call (w, succeeded) p =
      if succeeded
      then (true, record p { world = w })
      else (false, record p { world = w; sc_error = kernel.errno w })

  -- The socket is opened once, when it is needed.
  unfoldable pub with_socket : Progress W → Flow (Progress W)
  with_socket p =
      if p.socket
      then next p
      else (let (opened, q) = after_call (kernel.open_socket p.world) p in
          if opened then next (record q { socket = true }) else done (record q { ok = false }))

  unfoldable pub bond_set_mode : Key → Option ℤ → Progress W → Bool × Progress W
  bond_set_mode bond_if mode p =
      after_call (kernel.request p.world bond_if (set_mode_of (mode_number mode))) p

  unfoldable pub bond_add_interface : Key → Key → Progress W → Bool × Progress W
  bond_add_interface bond_if interface_if p =
      after_call (kernel.request p.world bond_if (add_member interface_if)) p

  unfoldable pub bond_remove_interface : Key → Key → Progress W → Bool × Progress W
  bond_remove_interface bond_if interface_if p =
      after_call (kernel.request p.world bond_if (remove_member interface_if)) p

module _ {I Key W : Type 0} (ifs : Interfaces I Key) (kernel : BondKernel Key W) where
  -- `_SC_CFEqual` on arrays of interfaces.
  unfoldable pub equal_interfaces : List I → List I → Bool
  equal_interfaces [] [] = true
  equal_interfaces [] (j ∷ l) = false
  equal_interfaces (i ∷ k) [] = false
  equal_interfaces (i ∷ k) (j ∷ l) =
      let rest = equal_interfaces k l in if ifs.same i j then rest else false

  -- The first bond with the name.
  unfoldable pub find_bond : Key → List (Bond I Key) → Option (Bond I Key)
  find_bond name [] = none
  find_bond name (b ∷ l) =
      let rest = find_bond name l in if ifs.name_equal name b.bond_if then some b else rest

  -- The loop over the members of an active bond: those that are no longer configured are removed.
  unfoldable pub remove_stale : Key → List I → List I → Progress W → Flow (Progress W)
  remove_stale a_bond_if c_interfaces [] p = next p
  remove_stale a_bond_if c_interfaces (a ∷ l) p =
      if is_among ifs c_interfaces a
      then remove_stale a_bond_if c_interfaces l p
      else with_socket kernel p >>= λ q.
          remove_stale a_bond_if c_interfaces l
            (checked (bond_remove_interface kernel a_bond_if (ifs.bsd_name a) q))

  -- The body of the first loop.
  unfoldable pub remove_unconfigured :
      List (Bond I Key) → Bond I Key → Progress W → Flow (Progress W)
  remove_unconfigured config a p = elim (find_bond a.bond_if config) [
    | some c ↦ remove_stale a.bond_if c.interfaces a.interfaces p
    | none ↦ with_socket kernel p >>= λ q.
        next (checked (after_call kernel (kernel.destroy_interface q.world a.bond_if) q))
  ]

  unfoldable pub remove_all : List (Bond I Key) → List (Bond I Key) → Progress W → Flow (Progress W)
  remove_all config [] p = next p
  remove_all config (a ∷ active) p = remove_unconfigured config a p >>= remove_all config active

  -- Both have a first device, and it is not the same.
  unfoldable pub first_differs : List I → List I → Bool
  first_differs [] l = false
  first_differs (c ∷ k) [] = false
  first_differs (c ∷ k) (a ∷ l) = not (ifs.same c a)

  -- All the devices that are still active are removed.
  unfoldable pub remove_present : Key → List I → List I → Progress W → Progress W
  remove_present a_bond_if c_interfaces [] p = p
  remove_present a_bond_if c_interfaces (a ∷ l) p =
      if is_among ifs c_interfaces a
      then remove_present a_bond_if c_interfaces l
          (checked (bond_remove_interface kernel a_bond_if (ifs.bsd_name a) p))
      else remove_present a_bond_if c_interfaces l p

  -- Devices that are not among the active ones are added, if they can be in a bond.
  unfoldable pub add_missing : Key → List I → List I → Progress W → Progress W
  add_missing c_bond_if a_interfaces [] p = p
  add_missing c_bond_if a_interfaces (c ∷ l) p =
      if is_among ifs a_interfaces c || not (ifs.supports_bond c)
      then add_missing c_bond_if a_interfaces l p
      else add_missing c_bond_if a_interfaces l
          (checked (bond_add_interface kernel c_bond_if (ifs.bsd_name c) p))

  unfoldable pub change_members : Bond I Key → Bond I Key → Progress W → Progress W
  change_members a c p =
      if first_differs c.interfaces a.interfaces
      then add_missing c.bond_if [] c.interfaces
          (remove_present a.bond_if c.interfaces a.interfaces p)
      else add_missing c.bond_if a.interfaces c.interfaces p

  -- A configured bond that is active; the result of the change of the mode does not count.
  unfoldable pub change_bond : Bond I Key → Bond I Key → Progress W → Flow (Progress W)
  change_bond a c p =
      let mode_change = not (equal_mode a.mode c.mode) in
      let if_list_change = not (equal_interfaces c.interfaces a.interfaces) in
      if not mode_change && not if_list_change
      then next p
      else with_socket kernel p >>= λ q.
          let r = if mode_change then (bond_set_mode kernel a.bond_if c.mode q).1 else q in
          next (if if_list_change then change_members a c r else r)

  -- A configured bond that is not active.
  unfoldable pub new_bond : Bond I Key → Progress W → Flow (Progress W)
  new_bond c p = with_socket kernel p >>= λ q.
      let (created, r) = after_call kernel (kernel.create_interface q.world c.bond_if) q in
      next (
        if created
        then add_missing c.bond_if [] c.interfaces (bond_set_mode kernel c.bond_if c.mode r).1
        else record r { ok = false })

  -- The body of the second loop.
  unfoldable pub update_bond : List (Bond I Key) → Bond I Key → Progress W → Flow (Progress W)
  update_bond active c p = elim (find_bond c.bond_if active) [
    | some a ↦ change_bond a c p
    | none ↦ new_bond c p
  ]

  unfoldable pub update_all : List (Bond I Key) → List (Bond I Key) → Progress W → Flow (Progress W)
  update_all active [] p = next p
  update_all active (c ∷ config) p = update_bond active c p >>= update_all active config

  -- `prefs` is whether there are preferences.
  unfoldable pub update_configuration :
      Bool → List (Bond I Key) → List (Bond I Key) → W → Progress W
  update_configuration false config active w = record {
    socket = false;
    ok = false;
    sc_error = invalid_argument;
    world = w;
  }
  update_configuration true config active w = end_of (
      remove_all config active
        (record { socket = false; ok = true; sc_error = status_ok; world = w })
      >>= update_all active config)
