-- ===== src/Socket/Filter/Judges.antt =====
-- src/socket/filter/mod.rs: the filter lifts no ban, and what it does with a banned source.
use discv.Socket.Filter.Cache.{cache_insert}
use discv.Prelude.{
  false, refl, some, ◌≡◌, ◌∙◌, Option, List, is_some, ℕ, true, Bool, Option-cases, Bool-cases, inl,
  if◌then◌else◌, inr, leb, ◌+◌, subst, none,
}
use discv.Prelude.Eq.{Eq}
use discv.Socket.RateLimiter.{allows_request, ip, node_id, total}
use discv.Socket.Filter.{
  LruCache, State, PermitBanList, NodeAddress, final_pass, ban_ip, ban_node, check_rates,
  check_nodes_per_ip, ban_for_rate, ban_timeout, record_node, initial_pass, SocketAddr,
  cache_insert,
}

module _ {I A : Type 0} where
  -- The permissions are the same, and every ban is still there, if perhaps with another end.
  pub record Keeps (l l' : PermitBanList I A) : Type 0 where
    pub ips_permitted : l'.permit_ips ≡ l.permit_ips
    pub nodes_permitted : l'.permit_nodes ≡ l.permit_nodes
    pub ips_banned : (x : A) → is_some (l.ban_ips x) ≡ true → is_some (l'.ban_ips x) ≡ true
    pub nodes_banned : (x : I) → is_some (l.ban_nodes x) ≡ true → is_some (l'.ban_nodes x) ≡ true

  pub Keeps-refl : (l : PermitBanList I A) → Keeps l l
  Keeps-refl l = record {
    ips_permitted = refl;
    nodes_permitted = refl;
    ips_banned = λ x h. h;
    nodes_banned = λ x h. h;
  }

  pub Keeps-trans : (k l m : PermitBanList I A) → Keeps k l → Keeps l m → Keeps k m
  Keeps-trans k l m p q = record {
    ips_permitted = q.ips_permitted ∙ p.ips_permitted;
    nodes_permitted = q.nodes_permitted ∙ p.nodes_permitted;
    ips_banned = λ x h. q.ips_banned x (p.ips_banned x h);
    nodes_banned = λ x h. q.nodes_banned x (p.nodes_banned x h);
  }

added :
    (b : Bool) (until : Option ℕ) (o : Option (Option ℕ))
    → is_some o ≡ true
    → is_some (if b then some until else o) ≡ true
added true until o h = refl
added false until o h = h

module _ {I A : Type 0} ⦃i : Eq I⦄ ⦃a : Eq A⦄ where
  pub Keeps-ban_ip : (x : A) (until : Option ℕ) (l : PermitBanList I A) → Keeps l (ban_ip x until l)
  Keeps-ban_ip x until l = record {
    ips_permitted = refl;
    nodes_permitted = refl;
    ips_banned = λ y h. added (a.eq x y) until (l.ban_ips y) h;
    nodes_banned = λ y h. h;
  }

  pub Keeps-ban_node :
      (x : I) (until : Option ℕ) (l : PermitBanList I A) → Keeps l (ban_node x until l)
  Keeps-ban_node x until l = record {
    ips_permitted = refl;
    nodes_permitted = refl;
    ips_banned = λ y h. h;
    nodes_banned = λ y h. added (i.eq x y) until (l.ban_nodes y) h;
  }

module _ {I A : Type 0} ⦃i : Eq I⦄ ⦃a : Eq A⦄ ⦃known : LruCache A (List I)⦄
    ⦃banned : LruCache A ℕ⦄ where
  check_rates-Keeps :
      (now time : ℕ) (src : A) (s : State I A) → Keeps s.1 (check_rates now time src s).0.1
  unfolding check_rates
  check_rates-Keeps now time src (f, l) = elim (Option-cases f.rate_limiter) [
    | inl e ↦ rw (check_rates, e) (Keeps-refl l)
    | inr (r, e) ↦ elim (Option-cases (allows_request time (ip src) r).1) [
      | inr (x, e1) ↦ rw (check_rates, e, e1) (Keeps-ban_ip src (ban_timeout now f) l)
      | inl e1 ↦
          elim (Option-cases (allows_request time total (allows_request time (ip src) r).0).1) [
            | inl e2 ↦ rw (check_rates, e, e1, e2) (Keeps-refl l)
            | inr (x, e2) ↦ rw (check_rates, e, e1, e2) (Keeps-refl l)
          ]
    ]
  ]

  check_nodes_per_ip-Keeps :
      (now : ℕ) (address : NodeAddress I A) (s : State I A)
      → Keeps s.1 (check_nodes_per_ip now address s).0.1
  unfolding check_nodes_per_ip
  check_nodes_per_ip-Keeps now address (f, l) = elim (Option-cases f.max_nodes_per_ip) [
    | inl e ↦ rw (check_nodes_per_ip, e) (Keeps-refl l)
    | inr (max, e) ↦ elim (Bool-cases (leb max (record_node address f).1)) [
      | inl many ↦
          rw (check_nodes_per_ip, e, many)
            (Keeps-ban_ip address.socket_addr.ip_addr (ban_timeout now f) l)
      | inr few ↦ rw (check_nodes_per_ip, e, few) (Keeps-refl l)
    ]
  ]

  ban_for_rate-Keeps :
      (now : ℕ) (address : NodeAddress I A) (s : State I A)
      → Keeps s.1 (ban_for_rate now address s).1
  unfolding ban_for_rate
  ban_for_rate-Keeps now address (f, l) =
      let until = ban_timeout now f in
      let src = address.socket_addr.ip_addr in
      let l1 = ban_node address.node until l in
      let one = Keeps-ban_node address.node until l in
      elim (Option-cases f.max_bans_per_ip) [
        | inl e ↦ rw (ban_for_rate, e) one
        | inr (max, e) ↦ elim (Option-cases (banned.get_mut src f.banned_nodes)) [
          | inl e1 ↦ rw (ban_for_rate, e, e1) one
          | inr (x, e1) ↦ elim (Bool-cases (leb max (x.0 + 1))) [
            | inl many ↦
                rw (ban_for_rate, e, e1, many)
                  (Keeps-trans l l1 (ban_ip src until l1) one (Keeps-ban_ip src until l1))
            | inr few ↦ rw (ban_for_rate, e, e1, few) one
          ]
        ]
      ]

  pub final_pass-Keeps :
      (time now : ℕ) (address : NodeAddress I A) (s : State I A)
      → Keeps s.1 (final_pass time now address s).0.1
  unfolding final_pass
  final_pass-Keeps time now address (f, l) = elim (Bool-cases (l.permit_nodes address.node)) [
    | inl e ↦ rw (final_pass, e) (Keeps-refl l)
    | inr p ↦ elim (Bool-cases (is_some (l.ban_nodes address.node))) [
      | inl e ↦ rw (final_pass, p, e) (Keeps-refl l)
      | inr b ↦ elim (Bool-cases f.enabled) [
        | inr off ↦ rw (final_pass, p, b, off) (Keeps-refl l)
        | inl enabled ↦ elim (Option-cases f.rate_limiter) [
          | inl e ↦ rw (final_pass, p, b, enabled, e) (check_nodes_per_ip-Keeps now address (f, l))
          | inr (r, e) ↦
              let (r1, refused) = allows_request time (node_id address.node) r in
              let f1 = record f { rate_limiter = some r1 } in
              elim (Option-cases (allows_request time (node_id address.node) r).1) [
                | inl e1 ↦
                    rw (final_pass, p, b, enabled, e, e1)
                      (check_nodes_per_ip-Keeps now address (f1, l))
                | inr (x, e1) ↦
                    rw (final_pass, p, b, enabled, e, e1) (ban_for_rate-Keeps now address (f1, l))
              ]
        ]
      ]
    ]
  ]

  pub initial_pass-Keeps :
      (now time later : ℕ) (src : SocketAddr A) (s : State I A) (r : State I A × Bool)
      → initial_pass now time later src s ≡ some r
      → Keeps s.1 r.0.1
  unfolding initial_pass
  initial_pass-Keeps now time later src (f, l) r h = elim (Bool-cases (l.permit_ips src.ip_addr)) [
    | inl e ↦ result ((f, l), true) (rw (initial_pass, e) at h) (Keeps-refl l)
    | inr p ↦ elim (Bool-cases (is_some (l.ban_ips src.ip_addr))) [
      | inl e ↦ result ((f, l), false) (rw (initial_pass, p, e) at h) (Keeps-refl l)
      | inr b ↦ elim (Option-cases (cache_insert now src f.raw_packets_received)) [
        | inl e ↦ let g : none ≡ some r = rw (initial_pass, p, b, e) at h in cc
        | inr (c, e) ↦
            let f1 = record f { raw_packets_received = c.0 } in
            elim (Bool-cases f.enabled) [
              | inl enabled ↦
                  result (check_rates later time src.ip_addr (f1, l))
                    (rw (initial_pass, p, b, e, enabled) at h)
                    (check_rates-Keeps later time src.ip_addr (f1, l))
              | inr off ↦
                  result ((record f1 { enabled = false }, l), true)
                    (rw (initial_pass, p, b, e, off) at h) (Keeps-refl l)
            ]
      ]
    ]
  ]
    where
      result : (q : State I A × Bool) → some q ≡ some r → Keeps l q.0.1 → Keeps l r.0.1
      result q e k = let g : q ≡ r = cc in subst (λ (x : State I A × Bool). Keeps l x.0.1) g k
