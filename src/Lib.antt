-- ===== src/Lib.antt =====
-- The C++ bridge that turns the recordings and live streams of a Hikvision recorder into HTTP video
-- (cpp-sdk-http-bridge-linux/src/main.cpp), as functions and step relations, in its Linux build, with
-- the service (windows-service.cpp) and the upgrade tool (windows-upgrade.cpp) of its Windows release.
--
-- A client asks /video with a query string. It is parsed into a StreamRequest; the SessionRegistry
-- gives it one of a bounded number of slots; an HcSession logs in at the recorder, finds the channel
-- and puts the stream's packets into a ByteQueue; FFmpeg turns them into fragmented MP4; the
-- SessionStatusRegistry remembers why the stream ended. A cleanup ends all sessions at once and makes
-- the tokens of their clients useless.
--
-- Which file models what:
--   Error       BridgeError and ClientDisconnected, as values of a result type
--   Text        std::string as a list of bytes; std::to_string, std::stoll, hexadecimal, find and substr
--   Dict        std::map with strings as keys, as a list of pairs
--   Query       url_decode, parse_query, required, is_safe_session_id, parse_long, parse_int
--   Request     StreamRequest, h264_copy_allowed, parse_stream_request
--   MediaQueue  class ByteQueue
--   EndReason   StreamEndReason, end_reason_name
--   Sessions    class SessionRegistry with its State, Lease and Counts
--   Status      SessionStatus, class SessionStatusRegistry
--   Topology    class NvrChannelTopology
--   Device      class HcSession: the login and the stream; Stream its packets, KeepAlive its monitor
--   CodecCache  class VideoCodecCache and the text of its state file
--   Mp4         find_atom, initial_mp4_has_audio, detect_video_codec, avc_mse_codec
--   Ffmpeg      select_plan, build_arguments and the reading loops of class FfmpegProcess;
--               Process its constructor, start_linux and stop_process
--   Pump        FfmpegProcess::start_pump and write_input
--   Socket      write_socket_all
--   Http        the routes of handle_connection and what they do to the registries; Reading is
--               read_http_request, Spelling what the bytes of a request spell
--   Video       handle_video up to the first media fragment, and its cleanup
--   Response    send_text, send_video_headers, send_chunk; Json send_json_body and send_json
--   Serving     handle_video as a whole, over Video, Response, Sessions and Status; resolve_end_reason;
--               Connection is handle_connection behind the reading of its request
--   Workers     class ConnectionWorkers, and the accept loop of run_server
--   Config      struct Config, load_config; Json its lookups in the file
--   Network     probe_nvr_endpoint, create_listener, check_video_client
--   Launch      run_bridge: the arguments and all that comes before run_server
--   Service     service_main, its control handler and the functions that report its state
--   Upgrade     the upgrade tool: World what it changes, Services stop, remove and restore, Files the
--               copy of the package, Verify the check of the new service, Snapshots what it accepts as
--               installed, Transaction execute and wmain
--   Quoting     the command lines of Windows: quote and quote_windows_argument
--   Effect      code that changes an object and may throw
--   Common      names of the library, Boolean tests, lists, integers
--   Examples    runs on concrete inputs
--
-- A method that holds a mutex is one step. Where a method waits on a condition variable, the list of
-- what other threads do meanwhile is an argument, so a theorem holds for every interleaving. A loop
-- that ends by the clock takes a list with one entry for each turn that the clock allows; behind the
-- last entry the deadline is past, so every list is a run and no run is left out. std::to_string has
-- the number itself, plus one, as its fuel, which is more than it has digits.
--
-- Integers of the program are integers here, and 64-bit counters wrap around where it is written. A
-- playing speed is counted in sixteenths; std::stod is a parameter, which may give NaN, as are the
-- answers of HCNetSDK, the clock, the sockets and the FFmpeg process. An address is a number that tells
-- two sessions apart.
--
-- In the upgrade tool a directory is the list of its files, and the four directories lie beside each
-- other. Every call of the service manager and of the file system is answered from outside, and may
-- fail; the installation script may leave the service and the files of the new directory in any state,
-- and may stop and remove the managed service. What a call that sets failure actions leaves of the
-- earlier ones is answered from outside.
--
-- Not modelled: the texts for people and the log files, the JSON texts of the control interface other
-- than those of errors (Http has their contents as values), the hardware detection and the start of
-- FFmpeg of the Windows build, the destructor of ConnectionWorkers, and of the upgrade tool the checks
-- of paths, the requests that it sends and its calls of other programs, which are answers from outside.
-- The C# bridge is a program of its own.
pub mod Common
pub mod Text
pub mod Dict
pub mod Error
pub mod Pump
pub mod Query
pub mod Request
pub mod Response
pub mod MediaQueue
pub mod EndReason
pub mod Serving
pub mod Sessions
pub mod Status
pub mod Topology
pub mod Effect
pub mod Device
pub mod Mp4
pub mod Socket
pub mod Http
pub mod Video
pub mod Workers
pub mod Ffmpeg
pub mod CodecCache
pub mod Config
pub mod Network
pub mod Launch
pub mod Service
pub mod Quoting
pub mod Upgrade
pub mod Examples
