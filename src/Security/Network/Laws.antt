-- ===== src/Security/Network/Laws.antt =====
-- What the guard lets through.
use gogoclaw.Base.{
  ◌-◌, ◌≡◌, ◌≢◌, ◌⊎◌, refl, inl, inr, arith, Bool, true, ◌&&◌, ◌||◌, List, [], ◌∷◌, ◌++◌, length,
  drop, take, any_of, Bool-cases,
}
use gogoclaw.Base.Bytes.{Bytes, bytes_eq, bytes_eq_iff, has_suffix, has_suffix-append, has_prefix}
use gogoclaw.Security.Network.{
  NetworkGuard, normalize, add_domain, add_agent_domain, add_agent_allowlist, wildcard_matches,
  host_of, is_allowed, round_trip, listed,
}

-- The host ends in the wildcard, or is the wildcard without its dot.
abbrev pub IsCovered : Bytes → Bytes → Type 0
IsCovered d w = ((front : Bytes) × (d ≡ front ++ w)) ⊎ (d ≡ drop 1 w)

abbrev pub SomeOf {ℓ} : {A : Type ℓ} → (A → Type 0) → List A → Type 0
SomeOf P [] = ⊥
SomeOf P (x ∷ xs) = P x ⊎ SomeOf P xs

-- A rule of the guard that lets the host through.
abbrev pub HasRule : NetworkGuard → Bytes → Type 0
HasRule g d =
    SomeOf (λ e. e ≡ d) g.global_allow
    ⊎ (SomeOf (λ e. e ≡ d) g.agent_allow
        ⊎ (SomeOf (IsCovered d) g.wildcard_allow ⊎ SomeOf (IsCovered d) g.agent_wildcards))

listed-SomeOf : (d : Bytes) (ds : List Bytes) → listed d ds ≡ true → SomeOf (λ e. e ≡ d) ds
listed-SomeOf d [] h = absurd (ground arith)
listed-SomeOf d (e ∷ es) h = ground (arith, bytes_eq_iff e d, listed-SomeOf d es)

wildcard_matches-IsCovered : (d w : Bytes) → wildcard_matches d w ≡ true → IsCovered d w
unfolding wildcard_matches
wildcard_matches-IsCovered d w h = elim (Bool-cases (has_suffix d w)) [
  | inl s ↦ inl (take (length d - length w) d, has_suffix-append d w s)
  | inr n ↦ inr ((bytes_eq_iff d (drop 1 w)).0 (ground arith))
]

any_of-SomeOf :
    (d : Bytes) (ws : List Bytes) → any_of (wildcard_matches d) ws ≡ true → SomeOf (IsCovered d) ws
any_of-SomeOf d [] h = absurd (ground arith)
any_of-SomeOf d (w ∷ ws) h = elim (Bool-cases (wildcard_matches d w)) [
  | inl m ↦ inl (wildcard_matches-IsCovered d w m)
  | inr n ↦ inr (any_of-SomeOf d ws (ground arith))
]

-- With `DenyAllOthers` set, a host that is let through has a rule: it is on one of the two lists,
-- or a wildcard of one of the two lists covers it.
pub is_allowed-HasRule :
    (g : NetworkGuard) (domain : Bytes)
    → g.deny_all ≡ true
    → is_allowed g domain ≡ true
    → HasRule g (host_of domain)
unfolding is_allowed
is_allowed-HasRule g domain deny h =
    let d = host_of domain in
    elim (Bool-cases (listed d g.global_allow)) [
      | inl a ↦ inl (listed-SomeOf d g.global_allow a)
      | inr a ↦ elim (Bool-cases (listed d g.agent_allow)) [
        | inl b ↦ inr (inl (listed-SomeOf d g.agent_allow b))
        | inr b ↦ elim (Bool-cases (any_of (wildcard_matches d) g.wildcard_allow)) [
          | inl c ↦ inr (inr (inl (any_of-SomeOf d g.wildcard_allow c)))
          | inr c ↦ inr (inr (inr (any_of-SomeOf d g.agent_wildcards (ground arith))))
        ]
      ]
    ]

-- Where everything else is denied, a request that reaches the inner transport has a rule for its
-- host, and one that does not is reported if blocked requests are logged.
pub round_trip-HasRule :
    (g : NetworkGuard) (requester host : Bytes)
    → g.deny_all ≡ true
    → ((round_trip g requester host).0 ≢ [] → HasRule g (host_of host))
      × ((round_trip g requester host).0 ≡ []
          → g.log_blocked && g.has_on_blocked ≡ true
          → (round_trip g requester host).1 ≡ record { domain = host; requester = requester } ∷ [])
unfolding round_trip
round_trip-HasRule g requester host deny = elim (Bool-cases (is_allowed g host)) [
  | inl y ↦ ((λ reached. is_allowed-HasRule g host deny y), λ held. absurd (ground arith))
  | inr n ↦ ((λ reached. absurd (reached (ground arith))), λ held logged. ground arith)
]

any_of-append {ℓ} :
    {A : Type ℓ} (p : A → Bool) (xs ys : List A)
    → any_of p (xs ++ ys) ≡ (any_of p xs || any_of p ys)
any_of-append p [] ys = refl
any_of-append p (x ∷ xs) ys = ground (arith, any_of-append p xs ys)

is_allowed-add_agent_domain :
    (g : NetworkGuard) (entry domain : Bytes)
    → is_allowed g domain ≡ true
    → is_allowed (add_agent_domain g entry) domain ≡ true
unfolding is_allowed add_agent_domain
is_allowed-add_agent_domain g entry domain h = ground (
  arith,
  any_of-append (wildcard_matches (host_of domain)) g.agent_wildcards (normalize entry ∷ []),
)

-- An agent's own allowlist only ever adds hosts.
pub is_allowed-add_agent_allowlist :
    (domains : List Bytes) (g : NetworkGuard) (domain : Bytes)
    → is_allowed g domain ≡ true
    → is_allowed (add_agent_allowlist g domains) domain ≡ true
unfolding add_agent_allowlist
is_allowed-add_agent_allowlist [] g domain h = h
is_allowed-add_agent_allowlist (d ∷ ds) g domain h =
    is_allowed-add_agent_allowlist ds (add_agent_domain g d) domain
      (is_allowed-add_agent_domain g d domain h)

-- A blank entry of an agent's allowlist lets through every request whose host is empty, although
-- the global allowlist skips blank entries.
pub add_agent_allowlist_blank :
    (g : NetworkGuard) (entry domain : Bytes)
    → normalize entry ≡ []
    → host_of domain ≡ []
    → (is_allowed (add_agent_allowlist g (entry ∷ [])) domain ≡ true) × (add_domain g entry ≡ g)
unfolding add_agent_allowlist is_allowed add_domain add_agent_domain bytes_eq has_prefix
add_agent_allowlist_blank g entry domain blank empty =
    (rw (blank, add_agent_domain, empty, is_allowed) (ground arith), rw (blank, add_domain) refl)
