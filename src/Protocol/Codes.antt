-- ===== src/Protocol/Codes.antt =====
-- The codes of protocol/packet.go. The source's types `Version`, `Protocol` and `AppProtocol` are
-- `uint8`, so a code is a number; the `...FromUint8` functions are switches over the known ones.
use sdl_control.Base.{ℕ, List, [], ◌∷◌, ◌==◌, nat_eq, if◌then◌else◌, ◌≡◌, ◌≢◌, refl, arith}

-- switch val { case c: return c ...; default: return fallback }
switch : List ℕ → ℕ → ℕ → ℕ
switch [] fallback val = fallback
switch (c ∷ cs) fallback val = if c == val then c else switch cs fallback val

abbrev pub v2 : ℕ
v2 = 2

abbrev pub v3 : ℕ
v3 = 3

abbrev pub unknown : ℕ
unknown = 255

unfoldable pub version_from_uint8 : ℕ → ℕ
unfolding switch
version_from_uint8 val = switch (v2 ∷ v3 ∷ []) unknown val

abbrev pub proto_service : ℕ
proto_service = 1

abbrev pub proto_error : ℕ
proto_error = 2

abbrev pub proto_control : ℕ
proto_control = 3

abbrev proto_ip_turn : ℕ
proto_ip_turn = 4

abbrev proto_other_turn : ℕ
proto_other_turn = 5

abbrev protocols : List ℕ
protocols = proto_service ∷ proto_error ∷ proto_control ∷ proto_ip_turn ∷ proto_other_turn ∷ []

unfoldable pub protocol_from_uint8 : ℕ → ℕ
unfolding switch
protocol_from_uint8 val = switch protocols unknown val

abbrev pub app_registration_request : ℕ
app_registration_request = 1

abbrev pub app_registration_response : ℕ
app_registration_response = 2

abbrev pub app_pull_device_list : ℕ
app_pull_device_list = 3

abbrev pub app_push_device_list : ℕ
app_push_device_list = 4

abbrev pub app_handshake_request : ℕ
app_handshake_request = 5

abbrev pub app_handshake_response : ℕ
app_handshake_response = 6

abbrev pub app_client_status_info : ℕ
app_client_status_info = 9

abbrev pub app_punch_request : ℕ
app_punch_request = 10

abbrev pub app_punch_ack : ℕ
app_punch_ack = 11

abbrev pub app_punch_start : ℕ
app_punch_start = 12

abbrev pub app_punch_result : ℕ
app_punch_result = 13

abbrev pub app_device_auth_request : ℕ
app_device_auth_request = 15

abbrev pub app_device_auth_ack : ℕ
app_device_auth_ack = 16

abbrev pub app_gateway_report_request : ℕ
app_gateway_report_request = 17

abbrev pub app_gateway_report_ack : ℕ
app_gateway_report_ack = 18

abbrev pub app_gateway_connect_hello : ℕ
app_gateway_connect_hello = 19

abbrev pub app_gateway_connect_ack : ℕ
app_gateway_connect_ack = 20

abbrev pub app_refresh_gateway_grant_request : ℕ
app_refresh_gateway_grant_request = 21

abbrev pub app_refresh_gateway_grant_response : ℕ
app_refresh_gateway_grant_response = 22

abbrev pub app_device_auth_challenge : ℕ
app_device_auth_challenge = 23

abbrev pub app_device_auth_proof : ℕ
app_device_auth_proof = 24

abbrev pub app_dns_query_request : ℕ
app_dns_query_request = 25

abbrev pub app_dns_query_response : ℕ
app_dns_query_response = 26

abbrev pub app_device_rename_request : ℕ
app_device_rename_request = 27

abbrev pub app_device_rename_response : ℕ
app_device_rename_response = 28

abbrev pub app_debug_collect_request : ℕ
app_debug_collect_request = 29

abbrev pub app_debug_collect_response : ℕ
app_debug_collect_response = 30

abbrev pub app_debug_watch_start_request : ℕ
app_debug_watch_start_request = 31

abbrev pub app_debug_watch_start_response : ℕ
app_debug_watch_start_response = 32

abbrev pub app_debug_watch_stop_request : ℕ
app_debug_watch_stop_request = 33

abbrev pub app_debug_watch_stop_response : ℕ
app_debug_watch_stop_response = 34

abbrev pub app_debug_watch_event : ℕ
app_debug_watch_event = 35

abbrev app_protocols : List ℕ
app_protocols =
    app_registration_request ∷ app_registration_response ∷ app_pull_device_list
    ∷ app_push_device_list ∷ app_handshake_request ∷ app_handshake_response ∷ app_client_status_info
    ∷ app_punch_request ∷ app_punch_ack ∷ app_punch_start ∷ app_punch_result
    ∷ app_device_auth_request ∷ app_device_auth_ack ∷ app_gateway_report_request
    ∷ app_gateway_report_ack ∷ app_gateway_connect_hello ∷ app_gateway_connect_ack
    ∷ app_refresh_gateway_grant_request ∷ app_refresh_gateway_grant_response
    ∷ app_device_auth_challenge ∷ app_device_auth_proof ∷ app_dns_query_request
    ∷ app_dns_query_response ∷ app_device_rename_request ∷ app_device_rename_response
    ∷ app_debug_collect_request ∷ app_debug_collect_response ∷ app_debug_watch_start_request
    ∷ app_debug_watch_start_response ∷ app_debug_watch_stop_request ∷ app_debug_watch_stop_response
    ∷ app_debug_watch_event ∷ []

unfoldable pub app_protocol_from_uint8 : ℕ → ℕ
unfolding switch
app_protocol_from_uint8 val = switch app_protocols unknown val

switch_known :
    (cs : List ℕ) (fallback val : ℕ)
    → switch cs fallback val ≢ fallback
    → switch cs fallback val ≡ val
unfolding switch
switch_known [] fallback val h = absurd (h refl)
switch_known (c ∷ cs) fallback val h = ground (arith, switch_known cs fallback val)

-- A code that the switch knows is the byte itself.
pub protocol_known : (b : ℕ) → protocol_from_uint8 b ≢ unknown → protocol_from_uint8 b ≡ b
unfolding protocol_from_uint8
protocol_known b h = switch_known protocols unknown b h

pub app_protocol_known :
    (b : ℕ) → app_protocol_from_uint8 b ≢ unknown → app_protocol_from_uint8 b ≡ b
unfolding app_protocol_from_uint8
app_protocol_known b h = switch_known app_protocols unknown b h
