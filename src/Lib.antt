-- ===== src/Lib.antt =====
-- ASense controls the fans, the platform profile, the keyboard lighting and the NVIDIA clock offsets
-- of Acer laptops. A privileged daemon serves a desktop client over a local socket. This library
-- models the Rust code of the daemon's side and of the client's end of the socket.
--
-- Base (with Lists, Text, Utf8, Decimal, Hex, HexRange, Split, Fields, Keyed and Int below it), Result
-- and Exec are the shared vocabulary: text as a list of bytes, results, and fallible code over a world that
-- keeps what was written before an error; Exec/Outcome has the rules for postconditions of such code.
--
-- Nvidia and Nvidia/Offsets are src/nvidia.rs: the data of a clock-offset snapshot and the offset
-- transaction (apply_offset_targets, rollback_after_failure). The driver behind OffsetDevice is a
-- parameter; Registers states what the theorems take of it.
--
-- Hardware is src/hardware.rs: the profile and fan vocabulary. Hardware/Sysfs reads and writes one
-- attribute; the file system is a parameter. Hardware/Fans is the fan transaction
-- (AcerHardware::apply_fan_setting) with its readbacks and its recovery, and Hardware/Profile reads
-- and sets the platform profile. Hardware/Readable says what the theorems take of a file system.
--
-- Tuning is src/tuning.rs: the profile transaction over the firmware and the GPU. The traits
-- FirmwareProfileControl and NvidiaProfileControl are a parameter, and Tuning/Honest states what a
-- reading says.
--
-- Daemon is src/daemon.rs: Daemon/Session is execute_command and enforce_thermal_watchdog for one
-- client, Daemon/Serve the turns of serve_client under the runtime lock with the fan lease
-- (DaemonRuntime), as a step relation over the sessions of all clients; Daemon/Decoder is
-- CommandDecoder, Daemon/Protocol the handshake and the responses, Daemon/Permits ClientPermit and
-- Daemon/Cache the cache of the lighting (load_cached_lighting, save_cached_lighting_at) over a file and
-- a JSON library that are parameters. Daemon/Resume is the deferred reconciliation of the NVIDIA offsets
-- (RuntimeMaintenance::poll_with, reconcile_pending_nvidia), and Resume/Intent what it takes of the
-- marker and the lock. The hardware that the daemon drives is a parameter, and
-- Daemon/Leases states what the theorems take of it; the commands that set neither a fan nor the profile
-- are one operation of it. Daemon/Devices has those commands that set the
-- lighting and the platform: the arms of execute_command and the parsers of their arguments, with
-- Devices/Board for what discovery finds and Devices/Perform for the arms.
--
-- Platform is src/platform.rs: the data and the rear logo's text; Platform/Controls is
-- PlatformControls over the same parameter for the file system, Platform/Readback states what its
-- setters have done, and Platform/State is the text of the whole state (encode_state, parse_state) with
-- its RoundTrip, and Readable for the states that read_state gives.
--
-- Lighting is src/lighting.rs: requests, states and their checks. Lighting/Text has the texts of the
-- zoned WMI transport, Lighting/Wmi KeyboardLighting and apply_zoned_wmi over the file system, and
-- Lighting/RoundTrip, Outcome and Refusal what they promise. Lighting/Enek is
-- src/lighting/enek5130.rs: the reports of the ENEK5130 controller; Enek/Device exchanges them with the
-- hidraw device, which is a parameter, Enek/Discovery finds a node that answers, Enek/Painting says
-- what the reports do to the zones, and Enek/Applied what an applied request has sent.
--
-- Control is src/control.rs: Control/Response reads one response from the events of the socket,
-- Control/Receipt is the receipt of a profile change, Control/Commands the lighting and platform
-- commands with their local checks, Control/Handshake the negotiation. Control/Lines, RoundTrip and
-- Coherent are about the client alone, as are Words, Plain and Trimmed (the words of its commands, which
-- are ASCII and which trimming leaves as they are); Answers, Handshake, Delivered and Carried put it
-- together with Daemon: what the daemon writes is what the client understands, and what the client asks
-- is what the daemon reads and carries out.
--
-- Error texts are dropped where no decision reads them; text is ASCII where white space is trimmed, but
-- for the command that the daemon trims (Base/Utf8), which is any UTF-8. Every loop of the model is
-- structural recursion over a list or over the number of rounds that the source fixes, so no fuel is
-- chosen; a reading that waits for the next event of its stream gives nothing yet.
-- Not modelled: the user interface, telemetry, the socket and its clock, the JSON of capabilities and
-- caches, the NVML binding, the listing of sysfs directories, and the kernel module.

pub mod Base
pub mod Result
pub mod Exec
pub mod Nvidia
pub mod Hardware
pub mod Tuning
pub mod Control
pub mod Daemon
pub mod Lighting
pub mod Platform
