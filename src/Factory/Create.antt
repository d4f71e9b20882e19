-- ===== src/Factory/Create.antt =====
-- server/switch/main.cc, `op_create`: what a client gets.
use l4_virtio_net_switch.Device.{einval}
use l4_virtio_net_switch.Prelude.{
  ℕ, ◌≡◌, refl, ap, ◌∙◌, Bool, true, false, not, ◌&&◌, Option, none, some, List, [], ◌==◌, if-intro,
  arith, Option-cases, inl, inr,
}
use l4_virtio_net_switch.Prelude.Int.{ℤ, pos}
use l4_virtio_net_switch.Port.{Port, new_port}
use l4_virtio_net_switch.Switch.{Switch, port_available, add_monitor_port, place}
use l4_virtio_net_switch.Switch.Slots.{add_port_lem}
use l4_virtio_net_switch.Factory.{
  Varg, Parsed, parsed, invalid, thrown, stuck, Reply, created, refused, raised, aborted, never,
  Made, valid_num_ds, default_settings, set_up, has_any, parse_args, mac_of, handed_over, add_to,
  create_port, op_create,
}
use l4_virtio_net_switch.Factory.Arguments.{Parser, Settings}
use l4_virtio_net_switch.Factory.Checks.{
  Valid, ValidParsed, Shortens, Bounded, parse_args-ValidParsed,
}
use l4_virtio_net_switch.Factory.SetUp.{
  wants, Joins, SetUp, set_up-SetUp, new_port-calm, AsWaiting, set_up-AsWaiting,
}

-- The reply to a call: a port that takes part in the VLANs that were read, in which nothing
-- waits and which the switch took; or an error or an exception, with the switch as it was.
abbrev pub Created : Parser → Bool → Settings → ℤ → Switch → Reply → Type 0
Created parser assign_mac s ds sw (created p n sw') =
    Joins (wants s) p
    × (p.pending_requests ≡ [])
    × (n ≡ ds)
    × (add_to parser assign_mac s.monitor p sw ≡ (true, sw'))
Created parser assign_mac s ds sw (refused code sw') = sw' ≡ sw
Created parser assign_mac s ds sw (raised sw') = sw' ≡ sw
Created parser assign_mac s ds sw aborted = ⊥
Created parser assign_mac s ds sw never = ⊥

abbrev pub Answer : Parser → Bool → List Varg → Switch → Reply → Type 0
Answer parser assign_mac va sw (created p ds sw') =
    (s : Settings) × (parse_args parser assign_mac va default_settings (pos 2) ≡ parsed s ds)
    × (valid_num_ds ds ≡ true)
    × Joins (wants s) p
    × (p.pending_requests ≡ [])
    × (add_to parser assign_mac s.monitor p sw ≡ (true, sw'))
Answer parser assign_mac va sw (refused code sw') = sw' ≡ sw
Answer parser assign_mac va sw (raised sw') = sw' ≡ sw
Answer parser assign_mac va sw aborted = ⊥
Answer parser assign_mac va sw never = ⊥

module _ (parser : Parser) (assign_mac : Bool) where
  -- A port that is not added leaves the switch as it is.
  add_to-unchanged :
      (monitor : Bool) (p : Port) (sw : Switch)
      → (add_to parser assign_mac monitor p sw).0 ≡ false
      → (add_to parser assign_mac monitor p sw).1 ≡ sw
  unfolding add_monitor_port place
  add_to-unchanged true p sw e = on sw.monitor (add_monitor_port p sw) refl e
    where
      on :
          (o : Option Port) (r : Bool × Switch)
          → r ≡ elim o [ none ↦ (true, record sw { monitor = some p }) | some m ↦ (false, sw) ]
          → r.0 ≡ false
          → r.1 ≡ sw
      on none r f g = absurd (ground (arith, ap (λ x. x.0) f))
      on (some m) r f g = rw f refl
  add_to-unchanged false p sw e = elim (add_port_lem p sw) [
    | inl (_, f) ↦ rw f refl
    | inr (inl (_, f)) ↦ rw f refl
    | inr (inr (i, _, f)) ↦ absurd (ground (arith, rw f at e))
  ]

  handed_over-Created :
      (s : Settings) (ds : ℤ) (p : Port) (sw : Switch)
      → Joins (wants s) p
      → p.pending_requests ≡ []
      → Created parser assign_mac s ds sw
          (handed_over parser assign_mac p ds sw (add_to parser assign_mac s.monitor p sw))
  handed_over-Created s ds p sw j w =
      on (add_to parser assign_mac s.monitor p sw) refl (add_to-unchanged s.monitor p sw)
    where
      on :
          (r : Bool × Switch)
          → add_to parser assign_mac s.monitor p sw ≡ r
          → (r.0 ≡ false → r.1 ≡ sw)
          → Created parser assign_mac s ds sw (handed_over parser assign_mac p ds sw r)
      on (true, sw') e h = (j, w, refl, e)
      on (false, sw') e h = h refl

  create_port-Created :
      (made : Made) (s : Settings) (ds : ℤ) (sw : Switch)
      → Valid s
      → Created parser assign_mac s ds sw (create_port parser assign_mac made s ds sw)
  unfolding create_port
  create_port-Created made s ds sw v = elim (Option-cases (port_available s.monitor sw)) [
    | inl e ↦ rw (create_port, e) refl
    | inr (n, e) ↦
        let new : Port = new_port made.self (mac_of parser assign_mac s n) made.rx made.tx in
        rw (create_port, e)
          (if-intro (Created parser assign_mac s ds sw)
            (not (s.vlan_access == 0) && has_any s.vlan_trunk) _ _ (λ _. refl)
            (λ _.
              on (set_up s new) new (set_up-SetUp s made.self (mac_of parser assign_mac s n) made v)
                (set_up-AsWaiting s new) (new_port-calm made.self _ made)))
  ]
    where
      on :
          (o : Option Port) (new : Port)
          → SetUp (wants s) o
          → AsWaiting new o
          → new.pending_requests ≡ []
          → Created parser assign_mac s ds sw (elim o [
            | none ↦ aborted
            | some p ↦
                handed_over parser assign_mac p ds sw (add_to parser assign_mac s.monitor p sw)
          ])
      on none new j w e = j
      on (some p) new j w e = handed_over-Created s ds p sw j (w ∙ e)

  op_create_checked :
      (made : Made) (sw : Switch) (va : List Varg) (q : Parsed)
      → parse_args parser assign_mac va default_settings (pos 2) ≡ q
      → ValidParsed q
      → Answer parser assign_mac va sw (elim q [
        | parsed s ds ↦ create_port parser assign_mac made s ds sw
        | invalid ↦ refused einval sw
        | thrown ↦ raised sw
        | stuck ↦ never
      ])
  op_create_checked made sw va (parsed s ds) e v =
      on (create_port parser assign_mac made s ds sw) (create_port-Created made s ds sw v.0)
    where
      on : (r : Reply) → Created parser assign_mac s ds sw r → Answer parser assign_mac va sw r
      on (created p n sw') (j, w, same, a) = rw same (s, e, v.1, j, w, a)
      on (refused code sw') h = h
      on (raised sw') h = h
      on aborted h = h
      on never h = h
  op_create_checked made sw va invalid e v = refl
  op_create_checked made sw va thrown e v = refl
  op_create_checked made sw va stuck e v = v

  -- Every call gets a reply, and fails no assertion. A client that gets a port gets one that takes
  -- part in exactly the VLANs that its arguments were read as, that has 1 to 80 dataspaces, in which
  -- nothing waits, and which the switch took; a client that gets an error or an exception leaves
  -- the switch as it was. Of the framework's strings: `substr` from an index on leaves no more of a
  -- string than stands there, and `from_dec` takes no more characters than there are.
  pub op_create-Answer :
      (made : Made) (type : ℕ) (va : List Varg) (sw : Switch)
      → Shortens parser
      → Bounded parser
      → Answer parser assign_mac va sw (op_create parser assign_mac made type va sw)
  unfolding op_create
  op_create-Answer made type va sw shorter bounded =
      if-intro (Answer parser assign_mac va sw) (not (type == 0)) _ _ (λ _. refl)
        (λ _. op_create_checked made sw va _ refl (
          parse_args-ValidParsed parser shorter bounded assign_mac va default_settings (pos 2)
            (inl refl, refl) refl))
