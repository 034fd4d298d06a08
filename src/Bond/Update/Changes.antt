-- ===== src/Bond/Update/Changes.antt =====
-- SystemConfiguration/BondConfiguration.c: what a step of `_SCBondInterfaceUpdateConfiguration` does to
-- the members that one bond has in the kernel, if it succeeds.
use configd_extra.Base.{
  ◌≡◌, refl, ◌∙◌, ap, ◌↔◌, Bool, true, false, List, [], ◌∷◌, ◌++◌, Option, none, some,
  if◌then◌else◌,
}
use configd_extra.Base.Int.{ℤ}
use configd_extra.Bond.State.{
  mode_number, Interfaces, Request, set_mode_of, add_member, remove_member, BondKernel,
}
use configd_extra.Bond.Update.{
  Progress, Flow, next, done, ◌>>=◌, checked, after_call, with_socket, bond_set_mode,
  bond_add_interface, bond_remove_interface,
}

abbrev pub on_members :
    {Key : Type 0} → (List Key → List Key) → Option (List Key) → Option (List Key)
on_members f none = none
on_members f (some l) = some (f l)

abbrev pub with_last : {Key : Type 0} → Key → List Key → List Key
with_last k l = l ++ (k ∷ [])

-- The list without its first element that is equal to the name.
unfoldable pub without_name : {Key : Type 0} → (Key → Key → Bool) → Key → List Key → List Key
without_name eq k [] = []
without_name eq k (j ∷ l) = let rest = without_name eq k l in if eq k j then l else j ∷ rest

-- What the kernel does: `members_of` is the list of members of the bond with a name, if there is one. A
-- request that fails may leave anything behind in its own bond, and no request reaches another bond.
-- `same_iff` says of `CFEqual` that, of the interfaces at hand, two with one BSD name agree in all else
-- that `__SCNetworkInterfaceEqual` compares (type, texts, the layers below).
pub record KernelLaws {I Key W : Type 0} (ifs : Interfaces I Key) (kernel : BondKernel Key W)
    : Type 0 where
  pub members_of : W → Key → Option (List Key)
  pub name_equal_iff : (j k : Key) → (ifs.name_equal j k ≡ true) ↔ (j ≡ k)
  pub same_iff : (i j : I) → (ifs.same i j ≡ true) ↔ (ifs.bsd_name i ≡ ifs.bsd_name j)
  pub open_members : (w : W) (n : Key) → members_of (kernel.open_socket w).0 n ≡ members_of w n
  pub request_other :
      (w : W) (b n : Key) (r : Request Key)
      → ifs.name_equal n b ≡ false
      → members_of (kernel.request w b r).0 n ≡ members_of w n
  pub create_other :
      (w : W) (b n : Key)
      → ifs.name_equal n b ≡ false
      → members_of (kernel.create_interface w b).0 n ≡ members_of w n
  pub destroy_other :
      (w : W) (b n : Key)
      → ifs.name_equal n b ≡ false
      → members_of (kernel.destroy_interface w b).0 n ≡ members_of w n
  pub set_mode_members :
      (w : W) (n : Key) (m : ℤ)
      → members_of (kernel.request w n (set_mode_of m)).0 n ≡ members_of w n
  pub add_members :
      (w : W) (n k : Key)
      → (kernel.request w n (add_member k)).1 ≡ true
      → members_of (kernel.request w n (add_member k)).0 n
        ≡ on_members (with_last k) (members_of w n)
  pub remove_members :
      (w : W) (n k : Key)
      → (kernel.request w n (remove_member k)).1 ≡ true
      → members_of (kernel.request w n (remove_member k)).0 n
        ≡ on_members (without_name ifs.name_equal k) (members_of w n)
  pub create_members :
      (w : W) (n : Key)
      → (kernel.create_interface w n).1 ≡ true
      → members_of (kernel.create_interface w n).0 n ≡ some []

module _ {I Key W : Type 0} (ifs : Interfaces I Key) (kernel : BondKernel Key W)
    (laws : KernelLaws ifs kernel) (n : Key) where
  -- After success there was success before, and the members of the bond `n` have changed by `f`.
  unfoldable pub Effect : (Option (List Key) → Option (List Key)) → Progress W → Progress W → Type 0
  Effect f p q =
      q.ok ≡ true → (p.ok ≡ true) × (laws.members_of q.world n ≡ f (laws.members_of p.world n))

  unfoldable pub Leads :
      (Option (List Key) → Option (List Key)) → Progress W → Flow (Progress W) → Type 0
  Leads f p (next q) = Effect f p q
  Leads f p (done q) = q.ok ≡ false

  abbrev pub unchanged : Option (List Key) → Option (List Key)
  unchanged v = v

  pub same-Effect : (p : Progress W) → Effect unchanged p p
  unfolding Effect
  same-Effect p o = (o, refl)

  pub then-Effect :
      (f g : Option (List Key) → Option (List Key)) (p q r : Progress W)
      → Effect f p q
      → Effect g q r
      → Effect (λ v. g (f v)) p r
  unfolding Effect
  then-Effect f g p q r a b o = let (oq, eq) = b o in let (op, ep) = a oq in (op, eq ∙ ap g ep)

  pub then-Leads :
      (f g : Option (List Key) → Option (List Key)) (p q : Progress W) (m : Flow (Progress W))
      → Effect f p q
      → Leads g q m
      → Leads (λ v. g (f v)) p m
  unfolding Leads
  then-Leads f g p q (next r) a c = then-Effect f g p q r a c
  then-Leads f g p q (done r) a c = c

  pub bind-Leads :
      (f g : Option (List Key) → Option (List Key)) (p : Progress W) (m : Flow (Progress W))
      (k : Progress W → Flow (Progress W))
      → Leads f p m
      → ((q : Progress W) → Leads g q (k q))
      → Leads (λ v. g (f v)) p (m >>= k)
  unfolding Leads
  bind-Leads f g p (next q) k a b = then-Leads f g p q (k q) a (b q)
  bind-Leads f g p (done q) k a b = a

  pub if-Effect :
      (f : Option (List Key) → Option (List Key)) (b : Bool) (p q r : Progress W)
      → Effect f p q
      → Effect f p r
      → Effect f p (if b then q else r)
  if-Effect f true p q r a c = a
  if-Effect f false p q r a c = c

  -- A call whose result counts, and one whose result does not.
  pub checked-Effect :
      (f : Option (List Key) → Option (List Key)) (c : W × Bool) (p : Progress W)
      → (c.1 ≡ true → laws.members_of c.0 n ≡ f (laws.members_of p.world n))
      → Effect f p (checked (after_call kernel c p))
  unfolding Effect checked after_call
  checked-Effect f (w, true) p h o = (o, h refl)
  checked-Effect f (w, false) p h o = absurd (cc)

  pub called-Effect :
      (f : Option (List Key) → Option (List Key)) (c : W × Bool) (p : Progress W)
      → laws.members_of c.0 n ≡ f (laws.members_of p.world n)
      → Effect f p (after_call kernel c p).1
  unfolding Effect after_call
  called-Effect f (w, true) p h o = (o, h)
  called-Effect f (w, false) p h o = (o, h)

  opened-Leads :
      (c : W × Bool) (p : Progress W)
      → laws.members_of c.0 n ≡ laws.members_of p.world n
      → Leads unchanged p (
          let (opened, q) = after_call kernel c p in
          if opened then next (record q { socket = true }) else done (record q { ok = false }))
  unfolding Leads Effect after_call
  opened-Leads (w, true) p h = λ o. (o, h)
  opened-Leads (w, false) p h = refl

  pub socket-Leads :
      (b : Bool) (p : Progress W) (m : Flow (Progress W))
      → Leads unchanged p m
      → Leads unchanged p (if b then next p else m)
  unfolding Leads
  socket-Leads true p m a = same-Effect p
  socket-Leads false p m a = a

  pub with_socket-Leads : (p : Progress W) → Leads unchanged p (with_socket kernel p)
  unfolding with_socket
  with_socket-Leads p =
      socket-Leads p.socket p _
        (opened-Leads (kernel.open_socket p.world) p (laws.open_members _ n))

  -- A step behind the socket.
  pub socket_then-Leads :
      (g : Option (List Key) → Option (List Key)) (p : Progress W)
      (k : Progress W → Flow (Progress W))
      → ((q : Progress W) → Leads g q (k q))
      → Leads g p (with_socket kernel p >>= k)
  socket_then-Leads g p k b = bind-Leads unchanged g p _ k (with_socket-Leads p) b

  -- The requests on the bond `n` itself.
  pub add-Effect :
      (k : Key) (p : Progress W)
      → Effect (on_members (with_last k)) p (checked (bond_add_interface kernel n k p))
  unfolding bond_add_interface
  add-Effect k p =
      checked-Effect _ (kernel.request p.world n (add_member k)) p (laws.add_members _ n k)

  pub remove-Effect :
      (k : Key) (p : Progress W)
      → Effect
          (on_members (without_name ifs.name_equal k))
          p
          (checked (bond_remove_interface kernel n k p))
  unfolding bond_remove_interface
  remove-Effect k p =
      checked-Effect _ (kernel.request p.world n (remove_member k)) p (laws.remove_members _ n k)

  pub set_mode-Effect :
      (m : Option ℤ) (p : Progress W) → Effect unchanged p (bond_set_mode kernel n m p).1
  unfolding bond_set_mode
  set_mode-Effect m p =
      called-Effect unchanged (kernel.request p.world n (set_mode_of (mode_number m))) p
        (laws.set_mode_members _ n _)

  -- A request on another bond.
  pub other-Effect :
      (b : Key) (r : Request Key) (p : Progress W)
      → ifs.name_equal n b ≡ false
      → Effect unchanged p (checked (after_call kernel (kernel.request p.world b r) p))
  other-Effect b r p e =
      checked-Effect unchanged (kernel.request p.world b r) p (λ o. laws.request_other _ b n r e)

  -- A step that goes on only after a call that succeeds.
  pub created-Effect :
      (f g : Option (List Key) → Option (List Key)) (c : W × Bool) (p : Progress W)
      (k : Progress W → Progress W)
      → (c.1 ≡ true → laws.members_of c.0 n ≡ f (laws.members_of p.world n))
      → ((q : Progress W) → Effect g q (k q))
      → Effect
          (λ v. g (f v))
          p
          (let (created, q) = after_call kernel c p in
            if created then k q else record q { ok = false })
  unfolding Effect after_call
  created-Effect f g (w, true) p k h a o =
      let (ok, e) = a (record p { world = w }) o in (ok, e ∙ ap g (h refl))
  created-Effect f g (w, false) p k h a o = absurd (cc)
