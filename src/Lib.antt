-- ===== src/Lib.antt =====
-- A verification library of the RTL8821CE driver for macOS: the parts of the C code that decide what
-- is read, installed, transmitted and powered, as functions that can be run, with theorems about them.
--
-- The program brings up a PCIe Wi-Fi card in a kernel extension and joins a WPA2 network. Power-on runs
-- the power sequences, the EFUSE gives the calibration bytes and the MAC address, the MAC is set up, a
-- scan fills the list of networks, a join authenticates and associates, the 4-way handshake derives the
-- keys, and these go into the card's security CAM. A daemon keeps the known networks.
--
-- The files and the code:
--   Base, Base/*        C tests, arrays, bytes and bits over the native numbers.
--   Hw                  the register accessors of core/rtw_shim.h. A card is any function of the
--                       history of accesses, so a theorem over every `Device` holds of every card.
--   Efuse/Decode        dump_logical_efuse_map of core/efuse.c.
--   Efuse/Dump          dump_physical_efuse_map with cfg_ldo25, grant_on and grant_off.
--   Efuse/Fields        efuse_read; the two allocation results are inputs.
--   Crypto/Sha1         sha1_init, sha1_update, sha1_final of crypto/rtw_crypto.c.
--   Crypto/Hmac         rtw_hmac_sha1; its context keeps what earlier hashes left in the buffer.
--   Crypto/Pbkdf2       rtw_pbkdf2_sha1.
--   Crypto/Aes          rtw_aes128_ecb_encrypt, rtw_aes128_ecb_decrypt and what they use.
--   Wpa/Ptk             prf and derive_ptk of core/wpa.c.
--   Wpa/Unwrap          aes_unwrap over a block cipher that is a parameter; Wpa/Unwrap/Kek puts in
--                       the AES above.
--   Wpa/Kde, Wpa/Gtk    parse_gtk_kde and extract_gtk.
--   Wpa/Eapol           eapol_hdr, build_eapol_key, eapol_mic, ct_memcmp16.
--   Wpa/Handshake       wpa_handshake as a function of what recv_eapol returns, call by call; what it
--                       sends is collected.
--   Pwr/Tables          the power tables of core/pwr.c, generated from the source row by row.
--   Pwr/Seq             rtw_pwr_seq_parser and the functions under it.
--   Pwr/Power           rtw_mac_pre_system_cfg, rtw_mac_power_switch, rtw_mac_power_on and
--                       rtw_mac_power_off, with RTW_FLAG_POWERON passed along.
--   Fifo                rtw_set_trx_fifo_info of core/macinit.c.
--   Mac, Mac/Chip       the rest of core/macinit.c: the queue mapping, the pages, the H2C queue, the
--                       chip setup and mac_init.
--   Fw                  core/fwdownload.c: the header of the image, the CPU and the saved registers.
--   Fw/Page, Fw/Dma     rtw_fw_write_data_rsvd_page and send_firmware_pkt; the DMA engine of the chip,
--                       its checksums and the loop over the parts of a section.
--   Fw/Run              start_download_firmware and download_firmware, with RTW_FLAG_FW_RUNNING; it
--                       sends through Trx/Send and ends in the trx_reset of Trx/Init.
--   Channel             set_channel of core/channel.c with its cached filter parameters.
--   Coex                core/coex.c: the antenna grants and what goes before them.
--   Scan/*              add_net, parse_frame, drain, find_by_ssid and best_target of core/scan.c.
--   Sec                 write_cam and install_keys of core/sec.c; Sec/Cam reads the entries of the CAM
--                       back from the register writes.
--   Trx                 the statics of core/trx.c, the log of its DMA and register accesses, q_regs.
--   Trx/Init            trx_init, trx_reset, trx_free, trx_unload_reset.
--   Trx/Rx              the accessors of the RX ring and trx_fill_data_cfg.
--   Trx/Send            trx_tx_mgmt, trx_tx_data, trx_tx_h2c, trx_write_data_rsvd_page.
--   H2c                 the packets of core/h2c.c.
--   Media               the mailbox and media_connect of core/media.c.
--   Phy                 the conditional tables of core/phy.c: check_positive, the interpreter and the
--                       appliers for the MAC, the AGC and the baseband; Phy/Table is the meaning of
--                       a table.
--   Phy/Rf              rtw_phy_read_rf, rtw_write_rf and rtw_phy_cfg_rf.
--   Kctl                the statics of server/kctl.c, and the log of the calls that it makes.
--   Kctl/Connect        rtw_kctl_connect, in the pieces between its tests.
--   Kctl/Ops            rtw_kctl_scan, rtw_kctl_scan_chunk, rtw_kctl_disconnect, rtw_kctl_status,
--                       rtw_kctl_unload_reset, rtw_kctl_poweron, rtw_kctl_bringup, and scan_marshal of core/scan.c.
--   Assoc               the frames, the response filter and the retry loops of core/assoc.c.
--   Config              the known networks and the settings of client/config.c.
--   Tests, Tests/*      runs at concrete inputs.
--
-- How the model stands to the code: a `uint8_t` array is a list of numbers; a read or write outside it
-- is a `fault` in the EFUSE decoder and in the walk over the key data, and an error of its own in the
-- copies of the firmware image. A w-bit integer has its wrap-around written out. Printed lines are left
-- out. The name of a definition is that of the C function without the prefix of the
-- driver where it has one. Counters of beacons and probe responses are not bounded.
--
-- Bounds and fuel: the EFUSE decoder has one round more than there are bytes to scan, and every block
-- moves on by a byte at least; the poll of the dump has the 1000000 rounds of the source; the walk over
-- the key data has one round more than there are bytes; sha1_update has as many rounds as bytes, each of
-- which takes a byte at least, and the padding has 64; the polls of the power sequence have the 20000
-- sleeps of the source; the handshake has the 30 rounds and 8 timeouts of the source; the walks over
-- elements in scan and association frames have as many rounds as the frame has bytes, and each moves
-- on by two; the register polls have the 1000 rounds of check_hw_ready; the loop over a section of the
-- firmware has two rounds more than it has whole packets of 4096 bytes, and each takes a whole packet or
-- the rest.
--
-- Server requests and ring calls: a `World` is the rest of the kernel, as functions from the log to
-- what a call returns, so a theorem over every world holds for every interleaving of failures. The
-- RX loop of trx_init has the five depths of the source. The entry points of server/kctl.c do not guard
-- against every order of requests: Kctl/Runs names the orders that it leaves to the client.
--
-- Parameters: HMAC and AES are arguments of the handshake's functions; the unwrap theorem asks for a
-- cipher with an inverse, the MIC theorem for a MAC of 20 bytes. inet_aton is an argument of `apply`,
-- and malloc one of the firmware download, as a function of the size and of the history so far.
--
-- The theorems on the memory of core/trx.c ask for a DMA service that gives out no handle in use. Two
-- fixed arrays have no bound in the model: in[128] of prf, and r[32 * 8] of aes_unwrap, whose one caller
-- passes at most 256 bytes. The header of a firmware image that is shorter than a header is read as 0.
--
-- Not modelled: recv_eapol and the wiping of keys, the MMIO writes and kdev_init of server/kctl.c, the
-- dwell loop of the scan, the calibration request and phy_set_param of core/phy.c, trim and
-- strip_comment and the file handling of client/config.c, the daemon's sockets, the kernel extension in
-- C++, the Swift interface and the scripts; the firmware image and the upstream register tables are
-- data.
pub mod Base
pub mod Hw
pub mod Kctl
pub mod Phy
pub mod Trx
pub mod Fw
pub mod H2c
pub mod Media
pub mod Efuse
pub mod Crypto
pub mod Wpa
pub mod Pwr
pub mod Fifo
pub mod Mac
pub mod Coex
pub mod Channel
pub mod Scan
pub mod Sec
pub mod Assoc
pub mod Config
pub mod Tests
