-- ===== src/Tests/Sessions.antt =====
-- A connection from its first frame to its end (server/src/ya_server_session.c), and the error stack
-- (server/src/ya_error.c).
use mouse_hero.Base.{ℕ, ◌≡◌, refl, true, none, some, List, [], ◌∷◌, ◌++◌, length, arith}
use mouse_hero.Base.Int.{pos, negsuc}
use mouse_hero.Clients.{
  find_by_uid, Manager, init, deref, free_opt, free_bev, nodes, dec_ref, create, find_in, admit,
}
use mouse_hero.Clients.Invariant.{Inv, init-Inv, create-Inv}
use mouse_hero.Errors.{ErrorInfo, ErrorContext, info_of, get_message, error_code_to_index}
use mouse_hero.Errors
use mouse_hero.Errors.Stack.{Call, sets, clears, run, history, view, run-history}
use mouse_hero.Handlers.Dispatch.{process_server_event}
use mouse_hero.Sessions.{
  udp_readcb, answer, address, Stats, closed, conn_eventcb, dec_connections, conn_readcb, respond,
  accept_cb, held,
}
use mouse_hero.Sessions.Closing.{conn_eventcb_keeps}
use mouse_hero.Sessions.Frames.{conn_readcb-serialize, udp_readcb-serialize}
use mouse_hero.Handlers.Safety.{After}
use mouse_hero.Handlers.Table.{process_server_event-After}
use mouse_hero.Sessions.Served.{
  Service, with_table, begins, turns, accepts, reads, answers, Served-Inv,
}
use mouse_hero.Tests.Handlers.{env, world, client, client_found}
use mouse_hero.Tests.Instances.{test_floats, test_mpack, list_buffer}
use mouse_hero.Tests.Wire.{
  click_body, click_header, click_param, click_wire, readable, codable, written,
}
use mouse_hero.Wire.Framing.{get_package_size, frame}
use mouse_hero.Handlers.{assign_response}
use mouse_hero.Sessions.Unguarded.{powered, control_unguarded}
use mouse_hero.Wire.Codec.{serialize_event}
use mouse_hero.Wire.Header.{write_header}
use mouse_hero.Wire.Payload.{serialize, get_serializer}
use mouse_hero.Wire.RoundTrip.{IsReadable}
use mouse_hero.Wire.{Bytes, EventHeader, control, request, absent, be32, read_be32}

abbrev stats : Stats
stats = record { total_connections = 1; active_connections = 1 }

world-Inv : Inv world.clients
world-Inv = create-Inv init (some 64) (some 7) 5 (pos 3) (some 8) init-Inv

conn_eventcb_keeps_example :
    (m' : Manager) × (conn_eventcb world.clients stats 64
      ≡ some (m', dec_connections stats, free_opt free_bev client.bev))
    × (deref m' 64 ≡ some (dec_ref (closed client)))
    × (length (nodes m') ≡ length (nodes world.clients))
conn_eventcb_keeps_example =
    conn_eventcb_keeps world.clients stats 64 client world-Inv client_found (omega arith)

conn_readcb-serialize_example :
    (left : Bytes) × (left ≡ 9 ∷ [])
    × (conn_readcb test_floats env test_mpack list_buffer 8 64 (click_wire ++ 9 ∷ []) world
        ≡ respond test_floats env test_mpack list_buffer 64 left (
            process_server_event test_floats env
              (some 8)
              (record { header = click_header; param = click_param })
              (some 64)
              (held test_floats env test_mpack list_buffer 64 world)))
conn_readcb-serialize_example =
    conn_readcb-serialize test_floats env test_mpack list_buffer 8 64 client click_header
      click_param (click_wire ++ 9 ∷ []) click_wire (9 ∷ []) world readable codable client_found
      refl written (omega arith) refl

abbrev failure : ErrorInfo
failure = info_of (negsuc 99) (some (b'x' ∷ [])) none (pos 12) none

abbrev failures : List Call
failures = sets failure ∷ clears ∷ sets failure ∷ sets failure ∷ []

two_failures : history failures [] ≡ failure ∷ failure ∷ []
two_failures = refl

run-history_example : run failures (Errors.init true none) ≡ some (view (history failures []))
run-history_example = run-history failures

memory_message : get_message (negsuc 99) ≡ some 2
unfolding get_message error_code_to_index
memory_message = refl

abbrev idle : Service ℕ
idle = record {
  world = record world { clients = init };
  stats = record { total_connections = 0; active_connections = 0 };
}

abbrev accepted : Service ℕ
accepted =
    let (m, counts, frees) = accept_cb init idle.stats (some 64) (some 7) 5 (pos 3) 8 in
    record { world = with_table idle.world m; stats = counts }

-- The client has sent one byte, and the command socket gets a datagram of one byte.
short_read :
    conn_readcb test_floats env test_mpack list_buffer 8 64 (9 ∷ []) accepted.world
    ≡ some (record { left = 9 ∷ []; sent = []; world = accepted.world; frees = [] })
unfolding conn_readcb accept_cb create init deref find_in get_package_size admit read_be32
short_read = refl

short_datagram :
    udp_readcb test_floats env test_mpack list_buffer (some (9 ∷ [])) accepted.world
    ≡ some (accepted.world, none)
unfolding udp_readcb get_package_size read_be32
short_datagram = refl

Served-Inv_example : Inv accepted.world.clients
Served-Inv_example = Served-Inv test_floats test_mpack list_buffer (
    turns
      (turns (turns (begins idle refl) (accepts (some 64) (some 7) 5 (pos 3) 8)) (
        reads env 8 64 (9 ∷ [])
          (record { left = 9 ∷ []; sent = []; world = accepted.world; frees = [] }) short_read))
      (answers env (some (9 ∷ [])) accepted.world none short_datagram))

process_server_event-After_example : After (
    process_server_event test_floats env
      (some 8)
      (record { header = click_header; param = click_param })
      (some 64)
      world)
process_server_event-After_example =
    process_server_event-After test_floats env (some 8) click_header click_param (some 64) world
      world-Inv

udp_readcb-serialize_example :
    udp_readcb test_floats env test_mpack list_buffer (some click_wire) world
    ≡ answer test_floats env test_mpack list_buffer (
        process_server_event test_floats env none
          (record { header = click_header; param = click_param })
          (address test_floats env test_mpack list_buffer (find_by_uid world.clients 3))
          world)
udp_readcb-serialize_example =
    udp_readcb-serialize test_floats env test_mpack list_buffer click_header click_param click_wire
      world readable codable written (omega arith)

-- A client of the UID 9 is not in the table.
abbrev shutdown_header : EventHeader
shutdown_header = record { type = control; direction = request; index = 7; uid = 9 }

shutdown-IsReadable : IsReadable shutdown_header
shutdown-IsReadable = record {
  uid_fits = omega arith;
  index_fits = omega arith;
  type_fits = omega arith;
  direction_fits = omega arith;
}

abbrev shutdown_wire : Bytes
shutdown_wire =
    0 ∷ 0 ∷ 0 ∷ 44 ∷ 0 ∷ 0 ∷ 0 ∷ 25 ∷ 3 ∷ 0 ∷ 0 ∷ 0 ∷ 4 ∷ 1 ∷ 0 ∷ 0 ∷ 0 ∷ 9 ∷ 1 ∷ 0 ∷ 0 ∷ 0
    ∷ control ∷ 1 ∷ 0 ∷ 0 ∷ 0 ∷ request ∷ 1 ∷ 0 ∷ 0 ∷ 0 ∷ 7 ∷ click_body

shutdown_written :
    serialize_event test_mpack (record { header = shutdown_header; param = click_param })
    ≡ some shutdown_wire
unfolding serialize_event serialize get_serializer frame write_header be32
shutdown_written = refl

unknown_uid : find_by_uid world.clients 9 ≡ none
unfolding find_by_uid create init find_in admit
unknown_uid = refl

control_unguarded_example :
    (process_server_event test_floats env none
        (record { header = shutdown_header; param = click_param })
        (address test_floats env test_mpack list_buffer (find_by_uid world.clients 9))
        world
      ≡ some (
        powered test_floats env test_mpack list_buffer (pos 1) world,
        some (assign_response (record { header = shutdown_header; param = click_param }) absent),
      ))
    × (udp_readcb test_floats env test_mpack list_buffer (some shutdown_wire) world ≡ none)
control_unguarded_example =
    control_unguarded test_floats env test_mpack list_buffer shutdown_header (pos 1) (pos 2)
      shutdown_wire world shutdown-IsReadable refl (omega arith) (omega arith) shutdown_written
      (omega arith) unknown_uid
