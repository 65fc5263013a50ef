-- ===== src/Lib.antt =====
-- A model of the bridge between a Windows program under Wine and a native video helper.
--
-- The parts of the program and how they interact:
--   * The program loads an encoder (src/amfrt_bridge.c), which offers AMF's interface. Each frame goes
--     over a local socket to the helper (src/amf_helper.c), and the packet that comes back waits in a
--     queue of eight until the program asks for it.
--   * It loads a video decoder (src/dxva_bridge.c), which offers Direct3D's. The application fills the
--     decoder's buffers; at the end of a frame the H.264 parameter sets and the bitstream go to the
--     helper, and the picture that comes back is scaled into the application's texture.
--   * The launcher (src/server_launcher.c) starts the real server and loads a hook into it.
--   * A hook (src/wayland_capture_hook.c) in the real server patches the import tables of its modules. It
--     draws the frames of a capture helper (src/wayland_capture_helper.cpp) in place of the screen's,
--     and forwards the input that the server injects to it, in requests of at most 64 events.
--   * The proxy src/d3d11_proxy.c starts this hook and installs the video decoder for each device, and
--     src/server_compat_hook.c replaces two of Windows' device functions.
--   * Messages are the records of src/helper_protocol.h and src/capture_protocol.h.
--
-- The files:
--   * Base holds the shared names, the lists over the native numbers and their lemmas.
--   * H264 is the writing of parameter sets: Writer the struct BitWriter with bw_bit, bw_bits, bw_ue,
--     bw_se and bw_trailing, Nal append_nal, Params build_h264_parameter_sets. Golomb describes the
--     codes and reads them back. A writer is its 256 bytes and the number of bits written.
--   * Wire is src/helper_protocol.h, Transport the loops around send and recv, Port the readers of a
--     port number. A connection is what the peer has sent, what has been sent to it, and the answers
--     that the calls are still to give; an open socket is such a connection, INVALID_SOCKET is none.
--   * Amf is the encoder: Store the property store, Outputs the queue of packets, Component the
--     struct BridgeComponent with component_init, component_submit and the other operations.
--   * Dxva is the decoder: Buffers context_get_buffer and context_submit, Decoder the connection with
--     its backoffs, Upload upload_nv12, EndFrame context_end_frame.
--   * Daemon is src/amf_helper.c: Clients the counter of clients, Codec encoder_frame and
--     decoder_packet, Session handle_client.
--   * Import is patch_import, a module being its descriptors and thunks; Compat is
--     src/server_compat_hook.c.
--   * Capture is the capture of the screen and the input: Protocol and Messages the records of
--     src/capture_protocol.h, Input send_input_chunk and capture_send_input, Frames request_frame with
--     connect_helper, Bitblt capture_bitblt, Install the installation of the hook. Capture.Helper is
--     the other end: Keys and Uinput the events for the kernel, Eis those for the compositor, Bridge
--     InputBridge::send, Frames capture_kwin_workspace with publish_bgra and publish_image, Server
--     handle_client.
--   * Proxy is src/d3d11_proxy.c.
--   * Launcher is the launcher: Text its routines on strings, Run its run. Reader is the C runtime's rule
--     for the first word of a command line.
--   * Tests evaluates the definitions at concrete inputs.
--
-- What the system answers (sockets, clocks, allocations, Direct3D, Windows) enters each operation
-- through a record with a field for each call, so that a theorem about every such record is one about
-- every behaviour of the system. Integers are natural numbers with the wrap-around written out.
--
-- Fuel: scan_bits has fuel 32, and its loop shifts a UINT to zero in at most 32 turns; pad_bits has
-- fuel 8, and at most 7 bits pad a byte; the loop of capture_send_input has the number of inputs, of
-- which every turn but the last takes one. await_devices has the 40 attempts and find_streamer the 200
-- of the source. The loops that serve a client run over the list of what their turns meet, of any
-- length. All other loops are structural.
--
-- Not modelled: the decoder's reference counts and tables of functions and its registry of Direct3D
-- runtimes, the critical sections of the hook, the helpers' listening sockets and arguments, the
-- capture helper's portal and pipeline (calls of Qt, D-Bus and GStreamer), and the headers under third_party/AMF, whose variants are a parameter of the property
-- store. libavcodec, libei and the kernel are what their calls answer; the numbers of Linux's input
-- header and Windows' comparison of names without case are parameters. Logging has no effect on the
-- state and is left out.
pub mod Base
pub mod H264
pub mod Import
pub mod Wire
pub mod Transport
pub mod Port
pub mod Amf
pub mod Daemon
pub mod Capture
pub mod Dxva
pub mod Proxy
pub mod Launcher
pub mod Tests
