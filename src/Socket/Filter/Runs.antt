-- ===== src/Socket/Filter/Runs.antt =====
-- src/socket/filter/mod.rs and src/permit_ban.rs over time: a ban holds through any run of the
-- filter.
use discv.Prelude.{
  refl, ◌>>=◌, some, none, List, [], ◌∷◌, ℕ, Option, ◌≡◌, subst, false, Option-cases, is_some, inl,
  true, inr, ap, Bool, ◌∙◌,
}
use discv.Prelude.Eq.{Eq}
use discv.Socket.Filter.{
  LruCache, State, PermitBanList, NodeAddress, SocketAddr, initial_pass, final_pass, ban,
  prune_limiter, ban_ip,
}
use discv.Socket.Filter.Judges.{
  Keeps, Keeps-refl, initial_pass-Keeps, Keeps-trans, final_pass-Keeps, Keeps-ban_ip,
  Keeps-ban_node,
}

-- The calls that the sockets and the server make, with their clocks.
pub data Call (I A : Type 0) : Type 0 where
  initial : ℕ → ℕ → ℕ → SocketAddr A → Call I A
  final : ℕ → ℕ → NodeAddress I A → Call I A
  prune : ℕ → Call I A
  banned_by_user : NodeAddress I A → Option ℕ → Call I A

-- Whom a check is about: the source of a packet, for `initial_pass`, or a node at its address, for
-- `final_pass`.
pub data Subject (I A : Type 0) : Type 0 where
  source : SocketAddr A → Subject I A
  node_at : NodeAddress I A → Subject I A

module _ {I A : Type 0} where
  abbrev pub is_permitted : Subject I A → PermitBanList I A → Bool
  is_permitted (source src) l = l.permit_ips src.ip_addr
  is_permitted (node_at address) l = l.permit_nodes address.node

  abbrev pub is_banned : Subject I A → PermitBanList I A → Bool
  is_banned (source src) l = is_some (l.ban_ips src.ip_addr)
  is_banned (node_at address) l = is_some (l.ban_nodes address.node)

module _ {I A : Type 0} ⦃i : Eq I⦄ ⦃a : Eq A⦄ ⦃known : LruCache A (List I)⦄
    ⦃banned : LruCache A ℕ⦄ where
  unfoldable pub call : Call I A → State I A → Option (State I A)
  unfolding initial_pass final_pass prune_limiter ban
  call (initial now time later src) s = initial_pass now time later src s >>= λ r. some r.0
  call (final time now address) s = some (final_pass time now address s).0
  call (prune time) (f, l) = some (prune_limiter time f, l)
  call (banned_by_user address until) (f, l) = some (f, ban address until l)

  unfoldable pub run : List (Call I A) → State I A → Option (State I A)
  unfolding call
  run [] s = some s
  run (c ∷ cs) s = call c s >>= run cs

  call-Keeps : (c : Call I A) (s s' : State I A) → call c s ≡ some s' → Keeps s.1 s'.1
  unfolding call ban
  call-Keeps (initial now time later src) s s' h =
      elim (Option-cases (initial_pass now time later src s)) [
        | inl e ↦ let g : none ≡ some s' = rw (call, e) at h in cc
        | inr (r, e) ↦
            let g : some r.0 ≡ some s' = rw (call, e) at h in
            same r.0 g (initial_pass-Keeps now time later src s r e)
      ]
    where
      same : (t : State I A) → some t ≡ some s' → Keeps s.1 t.1 → Keeps s.1 s'.1
      same t e k = let g : t ≡ s' = cc in subst (λ (x : State I A). Keeps s.1 x.1) g k
  call-Keeps (final time now address) s s' h =
      let g : (final_pass time now address s).0 ≡ s' = cc in
      subst (λ (x : State I A). Keeps s.1 x.1) g (final_pass-Keeps time now address s)
  call-Keeps (prune time) (f, l) s' h =
      let g : (prune_limiter time f, l) ≡ s' = cc in
      subst (λ (x : State I A). Keeps l x.1) g (Keeps-refl l)
  call-Keeps (banned_by_user address until) (f, l) s' h =
      let g : (f, ban address until l) ≡ s' = cc in
      subst (λ (x : State I A). Keeps l x.1) g
        (Keeps-trans l (ban_ip address.socket_addr.ip_addr until l) (ban address until l)
          (Keeps-ban_ip address.socket_addr.ip_addr until l)
          (Keeps-ban_node address.node until (ban_ip address.socket_addr.ip_addr until l)))

  run-Keeps : (cs : List (Call I A)) (s s' : State I A) → run cs s ≡ some s' → Keeps s.1 s'.1
  unfolding run
  run-Keeps [] s s' h =
      let g : s ≡ s' = cc in subst (λ (x : State I A). Keeps s.1 x.1) g (Keeps-refl s.1)
  run-Keeps (c ∷ cs) s s' h = elim (Option-cases (call c s)) [
    | inl e ↦ let g : none ≡ some s' = rw (run, e) at h in cc
    | inr (t, e) ↦
        Keeps-trans s.1 t.1 s'.1 (call-Keeps c s t e) (run-Keeps cs t s' (rw (run, e) at h))
  ]

  initial_pass_banned :
      (now time later : ℕ) (src : SocketAddr A) (s : State I A)
      → s.1.permit_ips src.ip_addr ≡ false
      → is_some (s.1.ban_ips src.ip_addr) ≡ true
      → initial_pass now time later src s ≡ some (s, false)
  unfolding initial_pass
  initial_pass_banned now time later src (f, l) p b = rw (initial_pass, p, b) refl

  final_pass_banned :
      (time now : ℕ) (address : NodeAddress I A) (s : State I A)
      → s.1.permit_nodes address.node ≡ false
      → is_some (s.1.ban_nodes address.node) ≡ true
      → final_pass time now address s ≡ (s, false)
  unfolding final_pass
  final_pass_banned time now address (f, l) p b = rw (final_pass, p, b) refl

  -- The check of the subject says no, and changes nothing.
  abbrev pub Refuses : (now time later : ℕ) → Subject I A → State I A → Type 0
  Refuses now time later (source src) s = initial_pass now time later src s ≡ some (s, false)
  Refuses now time later (node_at address) s = final_pass time later address s ≡ (s, false)

  -- The source of a packet whose address is banned and not permitted is refused by `initial_pass`,
  -- and a node that is banned and not permitted by `final_pass`, whichever of the two it is, also
  -- after any run of the filter's operations and of further bans that does not panic; the refusal
  -- changes nothing.
  pub run-Refuses :
      (x : Subject I A) (cs : List (Call I A)) (s s' : State I A) (now time later : ℕ)
      → is_permitted x s.1 ≡ false
      → is_banned x s.1 ≡ true
      → run cs s ≡ some s'
      → Refuses now time later x s'
  run-Refuses (source src) cs s s' now time later p b h =
      let k = run-Keeps cs s s' h in
      initial_pass_banned now time later src s'
        (ap (λ (g : A → Bool). g src.ip_addr) k.ips_permitted ∙ p) (k.ips_banned src.ip_addr b)
  run-Refuses (node_at address) cs s s' now time later p b h =
      let k = run-Keeps cs s s' h in
      final_pass_banned time later address s'
        (ap (λ (g : I → Bool). g address.node) k.nodes_permitted ∙ p)
        (k.nodes_banned address.node b)
