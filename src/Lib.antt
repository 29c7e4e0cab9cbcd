-- ===== src/Lib.antt =====
-- The controller of an overlay network: it gives virtual addresses to devices, knows which client is
-- online where, authenticates devices by tickets and enrolments, watches the gateways that relay
-- traffic, and has pairs of clients punch holes.
--
-- The parts, and the files of the repository that they model:
--   Base       numbers, lists, texts (package strings, in Text; Text/Trim and Text/Fold on trimmed texts
--              and strings.EqualFold), Go's maps, big-endian bytes, UTF-8, the verb %d (Decimal), and the
--              loop that counts up to the first free number (Search)
--   Protocol   protocol/packet.go, protocol/control_packet.go, util/utils.go: `Packet`, `Marshal` and
--              `Unmarshal` (marshal, unmarshal), the codes, the control payloads
--   ExpireMap  control/expire_map.go: Set, TrySetIfAbsent, Get, Delete and one tick of janitor; Laws sees
--              the map through the entries that are alive, Race splits Get at its change of locks
--   Network    control/ip.go (Client, Identity, Info and its Index), control/network.go generateIP with
--              validateRequestedIP of control/controller.go (Alloc), the rest of control/network.go
--              (Control), HandleControlPacketInNetwork of control/punch.go (Control/Ping)
--   Users      control/user.go: State, Groups (normalizeGroupForUser), Tickets (IssueDeviceTicket,
--              ValidateDeviceAuth, AuthDevice, CheckAuthedDevice), Enroll (CreateUserWithID,
--              CreateEnrollment, BindDeviceByEnrollment), Create (CreateUser), Devices
--              (ExtendAuthedDeviceExpiry, DeleteAuthedDevice), Names (uniqueDisplayNameLocked,
--              AssignAuthedDeviceDisplayName, SetAuthedDeviceDisplayName, RenameAuthedDevice), Wildcard
--              (wildcardMatch)
--   Registration  control/registration.go: Handle (HandleRegistrationPacketWithVirtualIPAndCapabilities as
--              a whole), Config (its checks and the configuration of a group), Join (its part under the
--              lock of the networks), Runtime (clearStaleClientStateByDeviceID,
--              removeAuthedDeviceRuntimeState, updateAuthedDeviceRuntimeName), Challenge
--              (HandleDeviceAuthPacket, HandleDeviceAuthProofPacket and their challenges in
--              control/controller.go)
--   DeviceList buildDeviceInfoList, DeviceListByIPInNetwork, the enrichment with exit nodes and
--              BuildPushDeviceListPacketsForPeerChangeInNetwork
--   ExitNodes  control/exit_node.go: approval, revocation and the target of an approval
--   Gateway    control/gateway.go: Replay (validateGatewayReplayWindow), Approval (ApproveGatewayNodeByID,
--              DelistGatewayNodeByID, isGatewayAllowed, the nodes that may be granted), Grants
--              (syncGatewayGrantPolicyLocked and its fingerprint, pruneGatewayGrantCacheLocked,
--              retainedGatewayAccessGrantsLocked, gatewayGrantSessionKnownLocked, with Ticket
--              (newGatewayTicket, cloneGatewayChannels, buildGatewayAccessGrantForNode) and Issue
--              (gatewayAccessGrantForNodeLocked)
--   Punch      control/punch.go: State (sessions, keys, retry state), Session (HandlePunchRequest-, Ack-
--              and ResultPacket, ReconcilePunchSessions), Endpoints (buildPunchEndpoints and the tests
--              that suppress a start)
--   Tests      runs at concrete inputs
-- A definition has the name of the Go function in lower case, and a record the fields of the struct.
-- Network and Punch keep their sessions, leases and retry states in maps of ExpireMap, and Control works
-- through Info, so its index stays true. Registration puts the parts together: it checks a device and
-- names it by Users, finds its network by Config, and lets Join take an address from Network/Alloc and
-- store the client through Info; DeviceList reads what it has stored.
--
-- An operation takes the state and returns it changed, with its result: what one lock guards is one
-- step. Where the source lets go of a lock in between, the halves are definitions of their own. A Go map
-- is an association list, its order the order in which `range` visits it. A time is a number, and an
-- operation reads the clock once unless it says otherwise; a duration or a time below zero is left out.
-- A machine integer keeps its wrap-around where the source can reach it. A text is valid UTF-8.
--
-- Loops recurse on the list that they visit. The scan for a free address recurses on the count of the
-- addresses from the first to the last usable one, so it visits each of them once. The one corner in
-- which the Go loop would wrap around, the network 0.0.0.0/32, is not modelled. The loops that count up
-- to a free user id or display name have no bound in the source; they run on one step more than there are
-- users or devices, and this is enough.
--
-- Arguments stand for what is not in the repository: the hash of a key, ed25519.Verify, hmac, random ids, the
-- decoded protobuf message, the address that the library parses, the tables of Unicode behind
-- strings.EqualFold (of which the theorems assume that a digit is alone in its orbit) and
-- strings.ToLower, and the store, a predicate that says whether it takes a state.
--
-- Not modelled: transport (handlers), stores, configuration, the administration client, debugging, and
-- for now DNS, the reports of gateways, the order of their grants, the listings for the
-- administration, and the building of PunchStart packets. A reply is modelled by what it says, not by its encoded bytes.
pub mod Base
pub mod Protocol
pub mod ExpireMap
pub mod Network
pub mod Users
pub mod Registration
pub mod DeviceList
pub mod ExitNodes
pub mod Gateway
pub mod Punch
pub mod Tests
