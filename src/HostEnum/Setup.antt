-- ===== src/HostEnum/Setup.antt =====
-- The constructor of src/HostEnumerator.cpp, up to its socket. `pton` stands for InetPtonW(), and
-- `scan_ipx` for swscanf() with L"00000000,0000%08X"; both give an IPv4 address as a number in host order. They
-- get the units that GetComponentByName() wrote.
use directplay_lite.Common.{
  ℕ, ◌-◌, ◌^◌, true, List, [], ◌∷◌, Option, some, none, ◌==◌, ltb, if◌then◌else◌,
}
use directplay_lite.Packet.Bytes.{wide_chars, le_value}
use directplay_lite.Address.Component.{HResult, s_ok, type_string, type_dword, Buffer, Answer}
use directplay_lite.Address.Object.{
  Address, key_hostname, key_port, same_string, get_component_by_name, get_sp,
}
use directplay_lite.Address.Host.{tcpip, ipx, class_id}

-- The exceptions of the constructor that come from its arguments.
pub data Failure : Type 0 where
  invalid_param invalid_device_address invalid_host_address : Failure

pub data Checked {ℓ} (A : Type ℓ) : Type ℓ where
  ok : A → Checked A
  failed : Failure → Checked A

infixl 5 ◌>>=◌
abbrev pub ◌>>=◌ {ℓ κ} : {A : Type ℓ} {B : Type κ} → Checked A → (A → Checked B) → Checked B
ok a >>= f = f a
failed e >>= f = failed e

-- send_addr: the four bytes of the address as a number, and the port in host order.
pub record Target : Type 0 where
  pub ip : ℕ
  pub port : ℕ

-- INADDR_BROADCAST and DISCOVERY_PORT.
abbrev pub discovery : Target
discovery = record { ip = 2 ^ 32 - 1; port = 6073 }

-- What the test of GetSP()'s result makes of it.
unfoldable pub granted : Failure → HResult × Option (List ℕ) → Checked (List ℕ)
granted e (s_ok, some g) = ok g
granted e r = failed e

unfoldable pub sp_of : Failure → Address → Checked (List ℕ)
unfolding granted
sp_of e a = granted e (get_sp a)

-- The address that a host name parses to.
unfoldable pub set_ip : Option ℕ → Target → Checked Target
set_ip none t = failed invalid_host_address
set_ip (some ip) t = ok (record t { ip = ip })

-- The host name's part, once the service providers agree.
unfoldable pub override_ip :
    (List ℕ → Option ℕ) → (List ℕ → Option ℕ) → List ℕ → Option Answer → Target → Checked Target
unfolding set_ip
override_ip pton scan_ipx sp none t = ok t
override_ip pton scan_ipx sp (some x) t = elim x.result [
  | s_ok ↦ elim x.type [
    | type_string ↦
        let text = wide_chars x.written in
        if same_string sp (class_id tcpip)
        then set_ip (pton text) t
        else if same_string sp (class_id ipx)
        then set_ip (scan_ipx text) t
        else ok t
    | _ ↦ failed invalid_host_address
  ]
  | _ ↦ ok t
]

unfoldable pub override_port : Option Answer → Target → Checked Target
override_port none t = ok t
override_port (some x) t = elim x.result [
  | s_ok ↦ elim x.type [
    | type_dword ↦
        let port = le_value x.written in
        if ltb 65535 port then failed invalid_host_address else ok (record t { port = port })
    | _ ↦ failed invalid_host_address
  ]
  | _ ↦ ok t
]

abbrev pub hostname_buffer : Buffer
hostname_buffer = record { present = true; size = 256 }

abbrev pub port_buffer : Buffer
port_buffer = record { present = true; size = 4 }

unfoldable pub target_of :
    (List ℕ → Option ℕ) → (List ℕ → Option ℕ) → List ℕ → Option Address → Checked Target
unfolding sp_of override_ip override_port
target_of pton scan_ipx sp none = ok discovery
target_of pton scan_ipx sp (some host) = do
  host_sp ← sp_of invalid_host_address host
  if same_string host_sp sp
      then (do
        t ←
            override_ip pton scan_ipx host_sp
              (get_component_by_name key_hostname hostname_buffer host) discovery
        override_port (get_component_by_name key_port port_buffer host) t)
      else failed invalid_param

pub record Enumerator : Type 0 where
  pub service_provider : List ℕ
  pub send_addr : Target
  pub application_guid : List ℕ
  pub user_data : List ℕ
  pub tx_remain : ℕ
  pub tx_interval : ℕ
  pub rx_timeout : ℕ
  pub next_tx_at : ℕ
  pub stop_at : ℕ

abbrev pub guid_null : List ℕ
guid_null = 0 ∷ 0 ∷ 0 ∷ 0 ∷ 0 ∷ 0 ∷ 0 ∷ 0 ∷ 0 ∷ 0 ∷ 0 ∷ 0 ∷ 0 ∷ 0 ∷ 0 ∷ 0 ∷ []

-- The arguments of the constructor. `garbage` is what stop_at holds: no code initialises it.
pub record Arguments : Type 0 where
  pub application : Option (List ℕ)
  pub host : Option Address
  pub device : Option Address
  pub enum_data : List ℕ
  pub enum_count : ℕ
  pub retry_interval : ℕ
  pub timeout : ℕ
  pub garbage : ℕ

abbrev pub or_default : ℕ → ℕ → ℕ
or_default d n = if n == 0 then d else n

unfoldable pub new_enumerator :
    (List ℕ → Option ℕ) → (List ℕ → Option ℕ) → Arguments → Checked Enumerator
unfolding target_of sp_of
new_enumerator pton scan_ipx x = elim x.device [
  | none ↦ failed invalid_param
  | some device ↦ do
    sp ← sp_of invalid_device_address device
    t ← target_of pton scan_ipx sp x.host
    ok (record {
      service_provider = sp;
      send_addr = t;
      application_guid = elim x.application [ none ↦ guid_null | some g ↦ g ];
      user_data = x.enum_data;
      tx_remain = or_default 5 x.enum_count;
      tx_interval = or_default 1500 x.retry_interval;
      rx_timeout = or_default 1500 x.timeout;
      next_tx_at = 0;
      stop_at = x.garbage;
    })
]
