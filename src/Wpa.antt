-- ===== src/Wpa.antt =====
-- core/wpa.c: the WPA2-PSK 4-way handshake.
pub mod Unwrap
pub mod Kde
pub mod Ptk
pub mod Eapol
pub mod Gtk
pub mod Handshake
