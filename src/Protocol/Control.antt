-- ===== src/Protocol/Control.antt =====
-- protocol/control_packet.go: the payloads of the control protocol.
use sdl_control.Base.{
  ℕ, ◌/◌, ◌%◌, ◌≤◌, ◌<◌, ◌≡◌, List, [], ◌∷◌, ◌++◌, Option, none, some, arith, ltb, if◌then◌else◌,
}
use sdl_control.Base.Bytes.{be16, put_be16}
use sdl_control.Protocol.Ip.{Ip, to4, ipv4}
use sdl_control.Protocol.Packet.{copy4}

abbrev pub control_ping : ℕ
control_ping = 1

abbrev pub control_pong : ℕ
control_pong = 2

abbrev pub control_punch_request : ℕ
control_punch_request = 3

abbrev pub control_punch_response : ℕ
control_punch_response = 4

abbrev pub control_addr_request : ℕ
control_addr_request = 5

abbrev pub control_addr_response : ℕ
control_addr_response = 6

-- The time and the epoch; `none` is the error on a short payload.
unfoldable pub parse_ping_payload : List ℕ → Option (ℕ × ℕ)
unfolding be16
parse_ping_payload (a ∷ b ∷ c ∷ d ∷ rest) = some (be16 a b, be16 c d)
parse_ping_payload _ = none

unfoldable pub build_ping_payload : ℕ → ℕ → List ℕ
unfolding put_be16
build_ping_payload time epoch = put_be16 time ++ put_be16 epoch

unfoldable pub parse_addr_payload : List ℕ → Option (Ip × ℕ)
unfolding be16 to4 ipv4
parse_addr_payload (a ∷ b ∷ c ∷ d ∷ p ∷ q ∷ rest) = some (to4 (ipv4 a b c d), be16 p q)
parse_addr_payload _ = none

-- The host and port that `net.SplitHostPort`, `strconv.Atoi` and `net.ParseIP` read out of the
-- remote address, `none` where one of them fails. Atoi's failures include a negative port.
unfoldable pub build_addr_payload : Option (Ip × ℕ) → Option (List ℕ)
unfolding put_be16 copy4 to4
build_addr_payload none = none
build_addr_payload (some (ip, port)) =
    if ltb 65535 port then none else some (copy4 (to4 ip) ++ put_be16 port)

-- A ping payload that was built is parsed back, for sixteen-bit fields and whatever follows it.
pub parse_ping-build_ping :
    (time epoch : ℕ) (rest : List ℕ)
    → time < 65536
    → epoch < 65536
    → parse_ping_payload (build_ping_payload time epoch ++ rest) ≡ some (time, epoch)
unfolding parse_ping_payload build_ping_payload
parse_ping-build_ping time epoch rest ht he = ground arith

-- The address payload of an IPv4 address carries its four bytes and the port, for every valid port.
pub parse_addr-build_addr :
    (a b c d port : ℕ)
    → port ≤ 65535
    → (bytes : List ℕ) × (build_addr_payload (some (a ∷ b ∷ c ∷ d ∷ [], port)) ≡ some bytes)
      × (parse_addr_payload bytes ≡ some (a ∷ b ∷ c ∷ d ∷ [], port))
unfolding parse_addr_payload build_addr_payload
parse_addr-build_addr a b c d port h =
    (a ∷ b ∷ c ∷ d ∷ port / 256 % 256 ∷ port % 256 ∷ [], ground arith, ground arith)
