-- ===== src/LiveConnection/Accounts.antt =====
-- crates/et-net/src/connection.rs: a new connection, and what it keeps beside its packets:
-- acknowledgements, the output window and the limits of live output.
use et_rs.Prelude.{
  ◌==◌, if◌then◌else◌, ℤ, pos, negsuc, ℕ, ◌+◌, ◌*◌, Bool, true, false, ◌&&◌, Option, none, some,
  List, [],
}
use et_rs.Crypto.{encrypt, decrypt}
use et_rs.Writer.{acknowledge, delivery_backlog, has_capacity}
use et_rs.ReadBuffer.{max_socket_read, with_max_socket_read}
use et_rs.KeepAlive.{encode_ack, AckSide}
use et_rs.OutputWindow.{OutputWindow, seed_round_trip, window, on_ack}
use et_rs.OutputWindow.Release.{blocked, unacknowledged_payload}
use et_rs.LiveConnection.{Live, written, is_some}
use et_rs.Writer
use et_rs.ReadBuffer
use et_rs.KeepAlive
use et_rs.OutputWindow
use et_rs.Crypto

-- Times in nanoseconds, as in the output window.
abbrev pub default_live_write_timeout : ℕ
default_live_write_timeout = 2 * 1000000000

abbrev pub flow_control_live_write_timeout : ℕ
flow_control_live_write_timeout = 5 * 1000000000

abbrev pub flow_control_peer_silence : ℕ
flow_control_peer_silence = 10 * 1000000000

abbrev pub client_max_socket_read : ℕ
client_max_socket_read = 64 * 1024

abbrev pub server_max_socket_read : ℕ
server_max_socket_read = 96 * 1024

abbrev pub dir_client_to_server : ℕ
dir_client_to_server = 0

abbrev pub dir_server_to_client : ℕ
dir_server_to_client = 1

-- The arguments: the key, the two directions, and the cap on one read.
unfoldable pub new : List ℕ → ℕ → ℕ → ℕ → Live
unfolding Crypto.new Writer.new ReadBuffer.new with_max_socket_read
new key encrypt decrypt max_socket_read = record {
  connection = record {
    writer = Writer.new (Crypto.new key encrypt) true;
    reader = with_max_socket_read (ReadBuffer.new (Crypto.new key decrypt) true) max_socket_read;
    live_write_timeout = default_live_write_timeout;
    peer_silence = none;
    pending_live = none;
    acks = record { attached = none };
    output_window = none;
  };
  transport = record { taken = []; shut = false };
}

unfoldable pub new_client : List ℕ → Live
unfolding new
new_client key = new key dir_client_to_server dir_server_to_client client_max_socket_read

unfoldable pub new_server : List ℕ → Live
unfolding new
new_server key = new key dir_server_to_client dir_client_to_server server_max_socket_read

-- `self.live_write_timeout = …; self.peer_silence = …`; the socket's options are not modelled.
unfoldable pub minimize_output_buffering : Live → Live
minimize_output_buffering l = record l {
  connection = record (l.connection) {
    live_write_timeout = flow_control_live_write_timeout;
    peer_silence = some flow_control_peer_silence;
  };
}

abbrev pub with_window : Live → Option OutputWindow → Live
with_window l window = record l { connection = record (l.connection) { output_window = window } }

-- `get_or_insert_with(OutputWindow::default)`.
abbrev pub or_initial : Option OutputWindow → OutputWindow
or_initial none = OutputWindow.initial
or_initial (some window) = window

unfoldable pub bound_unacknowledged_output : Live → Live
bound_unacknowledged_output l = with_window l (some (or_initial l.connection.output_window))

abbrev pub seeded : Option OutputWindow → ℕ → Option OutputWindow
seeded none rtt = none
seeded (some window) rtt = some (seed_round_trip window rtt)

unfoldable pub seed_output_round_trip : Live → ℕ → Live
seed_output_round_trip l rtt = with_window l (seeded l.connection.output_window rtt)

-- The window after the writer has seen the acknowledgement. The arguments: the window, the backlog,
-- the acknowledged sequence, the writer's sequence, whether it is connected, and the clock.
unfoldable pub window_on_ack :
    Option OutputWindow → Option (ℕ × ℕ) → ℤ → ℕ → Bool → ℕ → Option OutputWindow
window_on_ack none backlog sequence written connected now = none
window_on_ack (some window) none sequence written connected now = some window
window_on_ack (some window) (some backlog) (negsuc n) written connected now = some window
window_on_ack (some window) (some (acknowledged, unacknowledged)) (pos n) written connected now =
    if acknowledged == n && connected
    then some (
        on_ack window acknowledged (unacknowledged_payload acknowledged unacknowledged written) now)
    else some window

unfoldable pub acknowledge_delivery : Live → ℤ → ℕ → Live
unfolding window_on_ack
acknowledge_delivery l sequence now =
    let w = acknowledge l.connection.writer sequence in
    record l {
      connection = record (l.connection) {
        writer = w;
        output_window =
            window_on_ack l.connection.output_window (delivery_backlog w) sequence w.sequence
              w.connected now;
      };
    }

-- The window, whether the writer is connected, its backlog and sequence, and the clock.
unfoldable pub window_blocked :
    Option OutputWindow → Bool → Option (ℕ × ℕ) → ℕ → ℕ → Option OutputWindow × Option ℕ
window_blocked none connected backlog written now = (none, none)
window_blocked (some window) connected none written now = (some window, none)
window_blocked (some window) connected (some (acknowledged, unacknowledged)) written now =
    if connected
    then (let (window', until) =
          blocked window acknowledged (unacknowledged_payload acknowledged unacknowledged written)
            now in
        (some window', until))
    else (some window, none)

unfoldable pub output_window_blocked : Live → ℕ → Live × Option ℕ
unfolding window_blocked
output_window_blocked l now =
    let w = l.connection.writer in
    let (window, until) =
      window_blocked l.connection.output_window w.connected (delivery_backlog w) w.sequence now in
    (with_window l window, until)

unfoldable pub keepalive_ack : Live → List ℕ
keepalive_ack l = encode_ack (pos l.connection.reader.sequence)

unfoldable pub next_keepalive_ack : Live → AckSide → Bool → Live × Option (List ℕ)
next_keepalive_ack l side volume =
    let r = l.connection.reader in
    let (acks, payload) =
      KeepAlive.next l.connection.acks side r.sequence r.data_sequence
        (is_some (delivery_backlog l.connection.writer)) volume in
    (record l { connection = record (l.connection) { acks = acks } }, payload)

unfoldable pub can_buffer_write : Live → ℕ → Bool
can_buffer_write l bytes = has_capacity l.connection.writer bytes

unfoldable pub live_write_deadline : Live → ℕ → ℕ
live_write_deadline l since = since + l.connection.live_write_timeout
