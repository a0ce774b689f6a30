-- ===== src/Lib.antt =====
-- The Meshanics MCU SDK: the agent that keeps a microcontroller enrolled with its control plane and
-- updates its firmware. This library models the C code that decides, and proves what makes it safe:
-- an update is installed only from a manifest signed under the pinned key, and never an older one.
--
-- The parts and where they are:
--   Base      lists, C strings and buffers, machine words, decimal digits, and `Outcome`, the result
--             of a function that may fail, read out of bounds or not end
--   Wire      lib/verify/manifest_verify.c: the protobuf primitives (read_varint, skip_scalar,
--             read_len_delimited)
--   Manifest  lib/verify/manifest_verify.c, lib/verify/ed25519_fiat.c: the two decoders
--             (decode_signed, decode_manifest), the field checks, md_verify, md_check_rollback
--   Ota       lib/ota/ota.c: ota_parse_content_range and ota_chunk_len (Ota/Range), ota_plan_boot
--             (Ota/Boot), ota_heartbeat_json (Ota/Heartbeat, and what a JSON reader
--             finds in its text in Ota/Heartbeat/Json)
--   Applog    lib/applog/applog.c: the ring of log bytes (ring_put, applog_snapshot)
--   Claim     lib/provision/claim_proto.c: the enrolment request and its JSON (Claim/Json), the
--             public key out of a PEM text (Claim/Pem)
--   Provision lib/provision/provisioning.h and provisioning.c: the provisioning constants
--   Plat      lib/plat/plat.h: the interface `Counters` to the persistent update state, with its laws
--   Store     lib/plat/plat_store.c: the records on NVS; Store/Counter is lib/plat/plat_counter.c and
--             implements `Counters`; Store/Identity is lib/provision/identity.c
--   Net       lib/plat/plat_net.h: the interface `Net` that the installer and the agent use; and
--             lib/plat/plat_net.c: plat_fetch_manifest, plat_register, plat_net_upload_logs (Net/Http),
--             plat_heartbeat (Net/Heartbeat), plat_net_firmware_download (Net/Download),
--             plat_net_wifi_up (Net/Wifi), plat_net_set_identity and tls_connect (Net/Tls). Net/Laws
--             makes them the interface, Net/Balance says what they leave alone, Net/Ends that they end
--   Install   lib/plat/plat_mcuboot.c: plat_stage_image with its digest check (Install/Digest,
--             Install/Spelling), and plat_commit_and_reboot
--   Enroll    lib/provision/enroll.c: https_retry, http_body, meshanics_enroll; Enroll/Link is below
--             them: device_id, gen_key_csr, https
--   Agent     lib/meshanics_agent.c: boot_confirm, poll_once (Agent), establish_identity and
--             agent_main (Agent/Main), the status server (Agent/Status), and the public API of
--             include/meshanics/agent.h (Agent/Start). Agent/Rollback, Agent/Main/Traces and
--             Agent/Cycle follow the update state over many events
--   System    all of these on one device, over a record of what is not the repository's
--
-- How they interact: poll_once fetches bytes through `Net`, hands them to md_verify, compares the
-- manifest's counter with those of `Counters`, stages the image with Install, and commits, which
-- makes the counter pending and reboots. boot_confirm carries out the plan of ota_plan_boot, which
-- promotes the pending counter, or records it as failed when MCUboot has gone back.
--
-- How C is rendered: a pointer with a length is the list of the bytes there; a char array that holds
-- a string is the bytes before the NUL; a NULL pointer is `none`; a static variable is a part of a
-- state record that the functions take and return; an int that is a flag is a Bool, and a result of
-- 0 or -1 is a Bool or an Option. Unsigned arithmetic has its wrap-around written out, with a size_t
-- of 32 bits as on the ESP32-S3. The decoders' loops run on fuel, `len` rounds for a buffer of `len`
-- bytes, and are proved never to run out of it, since each round moves on; read_varint has eleven
-- rounds, and its shift passes 64 before. The loop over the slot has as many rounds as the image has
-- bytes, and takes up to 512 of them a round; those that receive have as many rounds as the buffer
-- or the image has bytes, each but the last receiving one at least. Everything else is structural
-- recursion.
--
-- What is a parameter: ED25519_verify of the vendored library; Zephyr's NVS (Store/Device);
-- MCUboot, flash and PSA hashing (Install/Device); the network (Net); what agent_main calls beside
-- these (Agent/Setup), and the hardware and sockets of the status server (Agent/Status); TLS sockets
-- (Net/Socket, Net/Tls) and network management (Net/Wifi); PSA, mbedTLS and the credential store
-- (Enroll/Link). Their laws state documented behaviour, and the tests give each an instance. The
-- applied, pending and failed counters of a store that cannot be mounted, and of a record that a flash
-- error keeps from being read, are 0, as in the code; `HasSoundReads` is the hypothesis that no such
-- error occurs, and the theorems that need it take it beside the laws of NVS.
--
-- What is not modelled: logging, sleeping between two ticks, and the thread that
-- meshanics_agent_start creates, whose function is agent_main; the sample and the test under
-- samples and lib/provision/test; and the vendored cryptography under lib/verify/third_party. The
-- loop of agent_main runs for a given number of rounds, and the one of http_serve_pending for a number
-- that is enough while no new connection arrives. A zsock_recv of the status server that does not
-- return is a result of `Host`, behind which http_serve_pending and the loop of agent_main do not go
-- on.
pub mod Base
pub mod Wire
pub mod Manifest
pub mod Ota
pub mod Applog
pub mod Claim
pub mod Provision
pub mod Plat
pub mod Store
pub mod Net
pub mod Install
pub mod Enroll
pub mod Agent
pub mod System
