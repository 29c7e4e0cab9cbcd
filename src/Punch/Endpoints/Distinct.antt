-- ===== src/Punch/Endpoints/Distinct.antt =====
-- The offered endpoints are distinct.
use sdl_control.Base.{
  ℕ, ◌%◌, ◌^◌, ◌≡◌, ◌≢◌, List, [], ◌∷◌, ◌++◌, some, false, nat_eq, arith, All, Bool-cases,
  Option-cases, inl, inr,
}
use sdl_control.Network.Client.{ClientInfo, UdpEndpoint}
use sdl_control.Punch.Endpoints.{
  PunchEndpoint, endpoint_of, same_endpoint, is_seen, append_endpoints, build_punch_endpoints,
}

-- No endpoint stands before one like it, and each has a port.
abbrev pub IsDistinct : List PunchEndpoint → Type 0
IsDistinct [] = Unit
IsDistinct (e ∷ es) = All (λ f. same_endpoint e f ≡ false) es × (e.port ≢ 0) × IsDistinct es

port_kept :
    (u : UdpEndpoint) (port : ℕ) (e : PunchEndpoint) → endpoint_of u.ip port ≡ some e → e.port ≢ 0
unfolding endpoint_of
port_kept u port e h = ground arith

All-weaken :
    (seen : List PunchEndpoint) (e : PunchEndpoint) (es : List PunchEndpoint)
    → All (λ f. is_seen (e ∷ seen) f ≡ false) es
    → All (λ f. same_endpoint e f ≡ false) es × All (λ f. is_seen seen f ≡ false) es
unfolding is_seen
All-weaken seen e [] a = (tt, tt)
All-weaken seen e (f ∷ fs) a =
    let rest = All-weaken seen e fs a.1 in ((ground arith, rest.0), (ground arith, rest.1))

append_lem :
    (seen : List PunchEndpoint) (us : List UdpEndpoint)
    → All (λ f. is_seen seen f ≡ false) (append_endpoints seen us)
      × IsDistinct (append_endpoints seen us)
unfolding append_endpoints
append_lem seen [] = (tt, tt)
append_lem seen (u ∷ us) = elim (Option-cases (endpoint_of u.ip (u.port % 2 ^ 16))) [
  | inl h ↦ rw (append_endpoints, h) (append_lem seen us)
  | inr (e, h) ↦ elim (Bool-cases (is_seen seen e)) [
    | inl s ↦ rw (append_endpoints, h, s) (append_lem seen us)
    | inr s ↦
        let later = append_lem (e ∷ seen) us in
        let weak = All-weaken seen e (append_endpoints (e ∷ seen) us) later.0 in
        rw (append_endpoints, h, s)
          ((s, weak.1), (weak.0, port_kept u (u.port % 2 ^ 16) e h, later.1))
  ]
]

-- The endpoints that are offered for a client are pairwise distinct, and each has a port other than
-- 0.
pub build_punch_endpoints-IsDistinct :
    (client : ClientInfo) → IsDistinct (build_punch_endpoints client)
unfolding build_punch_endpoints
build_punch_endpoints-IsDistinct client = elim (Option-cases client.client_status) [
  | inl h ↦ rw h tt
  | inr (s, h) ↦ rw h (append_lem [] (s.public_udp_endpoints ++ s.local_udp_endpoints)).1
]
