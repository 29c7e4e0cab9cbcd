-- ===== src/Network/Alloc/Scan.antt =====
-- The scan for an address takes the first free one.
use sdl_control.Base.{
  ℕ, zero, suc, ◌+◌, ◌<◌, ◌≤◌, ◌≡◌, refl, Option, none, some, Bool, true, false, ◌&&◌, not, ◌==◌,
  nat_eq, string_eq, is_some, if◌then◌else◌, arith, Bool-cases, inl, inr, ◌∙◌, sym, nat_beq_iff, ap,
}
use native.Mathlib.Decide.{ℕ_discrete}
use mathlib.Core.Option.{some-injective}
use sdl_control.Base.Map
use sdl_control.Base.Map.{get-delete}
use sdl_control.ExpireMap
use sdl_control.ExpireMap.Laws.{live, get_lem}
use sdl_control.Protocol.Ip.{ip_to_uint32}
use sdl_control.Network.Client.{ClientInfo}
use sdl_control.Network.Info.{NetworkInfo, delete_client, delete_found}
use sdl_control.Network.OneAddress.{get-delete_client}
use sdl_control.Network.Alloc.{
  Sessions, IpSessionKey, key_eq, session_key, try_candidate, visit_occupied, visit, scan,
}

abbrev client_online : Option ClientInfo → Bool
client_online none = false
client_online (some c) = c.control_online

-- An address that nobody uses: neither the gateway's nor reserved, no client of it is online, and no
-- session holds it.
abbrev pub is_free : NetworkInfo → Sessions → ℕ → ℕ → Bool
is_free n s now ip =
    not (ip == ip_to_uint32 n.gateway)
    && not (is_some (Map.get n.reserved_ips ip))
    && not (client_online (Map.get n.clients ip))
    && not (is_some (live s now (session_key n ip)))

module _ (n : NetworkInfo) (s : Sessions) (now ip : ℕ) where
  candidate-taken : (try_candidate n s now ip).taken ≡ not (is_some (live s now (session_key n ip)))
  unfolding try_candidate
  candidate-taken = ground (arith, get_lem s now now (session_key n ip) (session_key n ip))

  candidate-network : (try_candidate n s now ip).network ≡ n
  unfolding try_candidate
  candidate-network = ground arith

  -- What a refused candidate leaves behind
  candidate-live :
      (j : IpSessionKey)
      → (try_candidate n s now ip).taken ≡ false
      → live (try_candidate n s now ip).sessions now j ≡ live s now j
  unfolding try_candidate
  candidate-live j h = ground (arith, get_lem s now now (session_key n ip) j)

group-delete : (n : NetworkInfo) (ip : ℕ) → (delete_client n ip).group ≡ n.group
unfolding delete_client delete_found
group-delete n ip = ground arith

module _ (n : NetworkInfo) (s : Sessions) (now ip : ℕ) where
  visit-taken : (visit n s now ip).taken ≡ is_free n s now ip
  unfolding visit visit_occupied
  visit-taken =
      let key = session_key n ip in
      let s' = (ExpireMap.get s now key).0 in
      ground (
        arith,
        candidate-taken n s now ip,
        candidate-taken (delete_client n ip) s' now ip,
        get_lem s now now key key,
        group-delete n ip,
      )

  visit_skipped :
      (j : IpSessionKey)
      → (visit n s now ip).taken ≡ false
      → ((visit n s now ip).network ≡ n) × (live (visit n s now ip).sessions now j ≡ live s now j)
  unfolding visit visit_occupied
  visit_skipped j h =
      let key = session_key n ip in
      let s' = (ExpireMap.get s now key).0 in
      ground (
        arith,
        candidate-taken n s now ip,
        candidate-network n s now ip,
        candidate-live n s now ip j,
        candidate-taken (delete_client n ip) s' now ip,
        get_lem s now now key key,
        get_lem s now now key j,
        group-delete n ip,
      )

  -- A taken address has no client, and the other clients are as they were.
  visit_frame :
      (j : ℕ)
      → (visit n s now ip).taken ≡ true
      → Map.get (visit n s now ip).network.clients j
        ≡ (if ip == j then none else Map.get n.clients j)
  unfolding visit visit_occupied
  visit_frame j h =
      let s' = (ExpireMap.get s now (session_key n ip)).0 in
      ground (
        arith,
        candidate-network n s now ip,
        candidate-network (delete_client n ip) s' now ip,
        get-delete_client n ip j,
        nat_beq_iff ip j,
        same j,
      )
    where
      same : (x : ℕ) → ip ≡ x → Map.get n.clients ip ≡ Map.get n.clients x
      same x e = ap (Map.get n.clients) e

-- The least of the `left` numbers from `ip` on that passes the test.
abbrev pub find_first : (ℕ → Bool) → ℕ → ℕ → Option ℕ
find_first p zero ip = none
find_first p (suc left) ip = let rest = find_first p left (ip + 1) in if p ip then some ip else rest

scan-eq :
    (p : ℕ → Bool) (left ip : ℕ) (n : NetworkInfo) (s : Sessions) (now : ℕ)
    → ((k : ℕ) → is_free n s now k ≡ p k)
    → (scan left ip n s now).0 ≡ find_first p left ip
unfolding scan
scan-eq p zero ip n s now same = refl
scan-eq p (suc left) ip n s now same = elim (Bool-cases (visit n s now ip).taken) [
  | inl t ↦ rw (t, ← same ip, ← visit-taken n s now ip, t)
  | inr f ↦
      rw (f, ← same ip, ← visit-taken n s now ip, f)
        (scan-eq p left (ip + 1) (visit n s now ip).network (visit n s now ip).sessions now
          (λ k. kept k f ∙ same k))
]
  where
    kept :
        (k : ℕ)
        → (visit n s now ip).taken ≡ false
        → is_free (visit n s now ip).network (visit n s now ip).sessions now k ≡ is_free n s now k
    kept k f = rw (
      (visit_skipped n s now ip (session_key n k) f).0,
      (visit_skipped n s now ip (session_key n k) f).1,
    )

-- The scan finds the first free address among those that it is given, and none exactly when none of
-- them is free.
pub scan-find_first :
    (left ip : ℕ) (n : NetworkInfo) (s : Sessions) (now : ℕ)
    → (scan left ip n s now).0 ≡ find_first (is_free n s now) left ip
scan-find_first left ip n s now = scan-eq (is_free n s now) left ip n s now (λ k. refl)

-- A taken address has no client left, and the clients at the other addresses are as they were.
pub scan_frame :
    (left ip : ℕ) (n : NetworkInfo) (s : Sessions) (now k j : ℕ)
    → (scan left ip n s now).0 ≡ some k
    → Map.get (scan left ip n s now).1.clients j ≡ (if k == j then none else Map.get n.clients j)
unfolding scan
scan_frame zero ip n s now k j h = cc
scan_frame (suc left) ip n s now k j h =
    let r = visit n s now ip in
    ground (
      arith,
      visit_frame n s now ip j,
      visit_skipped n s now ip (session_key n j),
      scan_frame left (ip + 1) r.network r.sessions now k j,
    )

find_first_head : (p : ℕ → Bool) (left ip : ℕ) → p ip ≡ true → find_first p (suc left) ip ≡ some ip
find_first_head p left ip e = rw e

find_first_tail :
    (p : ℕ → Bool) (left ip : ℕ)
    → p ip ≡ false
    → find_first p (suc left) ip ≡ find_first p left (ip + 1)
find_first_tail p left ip e = rw e

-- The number found passes the test, and lies in the range.
pub find_first_sound :
    (p : ℕ → Bool) (left ip k : ℕ)
    → find_first p left ip ≡ some k
    → (p k ≡ true) × (ip ≤ k) × (k < ip + left)
find_first_sound p zero ip k h = cc
find_first_sound p (suc left) ip k h = elim (Bool-cases (p ip)) [
  | inl e ↦
      let same : ip ≡ k = some-injective ip k (sym (find_first_head p left ip e) ∙ h) in
      (rw (← same) e, omega arith, omega arith)
  | inr e ↦
      let ih = find_first_sound p left (ip + 1) k (sym (find_first_tail p left ip e) ∙ h) in
      (ih.0, omega arith, omega arith)
]

-- Where none is found, none passes the test.
pub find_first-none :
    (p : ℕ → Bool) (left ip j : ℕ)
    → find_first p left ip ≡ none
    → ip ≤ j
    → j < ip + left
    → p j ≡ false
find_first-none p zero ip j h lo hi = absurd (omega arith)
find_first-none p (suc left) ip j h lo hi = elim (Bool-cases (p ip)) [
  | inl e ↦ cc (find_first_head p left ip e)
  | inr e ↦ elim (ℕ_discrete ip j) [
    | yes same ↦ rw (← same) e
    | no other ↦
        find_first-none p left (ip + 1) j (sym (find_first_tail p left ip e) ∙ h) (omega arith)
          (omega arith)
  ]
]

-- No smaller number passes the test.
pub find_first_least :
    (p : ℕ → Bool) (left ip k j : ℕ) → find_first p left ip ≡ some k → ip ≤ j → j < k → p j ≡ false
find_first_least p zero ip k j h lo hi = cc
find_first_least p (suc left) ip k j h lo hi = elim (Bool-cases (p ip)) [
  | inl e ↦
      let same : ip ≡ k = some-injective ip k (sym (find_first_head p left ip e) ∙ h) in
      absurd (omega arith)
  | inr e ↦ elim (ℕ_discrete ip j) [
    | yes same ↦ rw (← same) e
    | no other ↦
        find_first_least p left (ip + 1) k j (sym (find_first_tail p left ip e) ∙ h) (omega arith)
          hi
  ]
]
