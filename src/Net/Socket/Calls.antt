-- ===== src/Net/Socket/Calls.antt =====
-- The member functions of Socket (Socket.cpp) that call the system: what each asks for, and what it
-- makes of the answer.
use Prim.Native.Nat.{bit_or}
use cs_system_lab.Prelude.{ℕ, ◌-◌, ◌/◌, ◌%◌, ◌^◌, Bool, not, List, [], ◌∷◌, Option, none, some}
use cs_system_lab.Prelude.Bytes.{Bytes}
use cs_system_lab.Prelude.Int.{ℤ, pos, negsuc, is_negative}
use cs_system_lab.Net.Socket.{Socket}

-- `struct sockaddr_in`: the family, and port and host in network order.
pub record Address : Type 0 where
  pub family : ℕ
  pub port : Bytes
  pub host : Bytes

pub data Call : Type 0 where
  bind_call : ℤ → Address → Call
  listen_call : ℤ → ℤ → Call
  accept_call : ℤ → Call
  get_flags : ℤ → Call
  set_flags : ℤ → ℕ → Call
  reuse_call : ℤ → Call

abbrev pub af_inet : ℕ
af_inet = 2

abbrev pub nonblock : ℕ
nonblock = 0x800

-- `int` to `uint16_t`
abbrev pub to_uint16 : ℤ → ℕ
to_uint16 (pos n) = n % 2 ^ 16
to_uint16 (negsuc n) = 2 ^ 16 - 1 - n % 2 ^ 16

-- `htons`, as the two bytes in memory.
abbrev pub htons : ℕ → Bytes
htons n = n / 256 ∷ n % 256 ∷ []

abbrev pub inaddr_any : Bytes
inaddr_any = 0 ∷ 0 ∷ 0 ∷ 0 ∷ []

-- `inet_pton` as what it leaves in `sin_addr`, for a text and what was there; what it returns is not
-- looked at.
module _ (inet_pton : Bytes → Bytes → Bytes) where
  -- `memset`, and then either branch.
  abbrev host_of : Option Bytes → Bytes
  host_of none = inaddr_any
  host_of (some ip) = inet_pton ip (0 ∷ 0 ∷ 0 ∷ 0 ∷ [])

  unfoldable pub address : Option Bytes → ℤ → Address
  address ip port = record { family = af_inet; port = htons (to_uint16 port); host = host_of ip }

  -- `bind`, with the answer of the system.
  unfoldable pub bind : ℤ → Option Bytes → ℤ → Socket → Call × Bool
  unfolding address
  bind answer ip port s = (bind_call s.fd (address ip port), not (is_negative answer))

-- `listen`, with the answer of the system.
unfoldable pub listen : ℤ → ℤ → Socket → Call × Bool
listen answer backlog s = (listen_call s.fd backlog, not (is_negative answer))

-- `accept`, with the answer of the system; an error is printed unless it is EAGAIN.
unfoldable pub accept : ℤ → Socket → Call × ℤ
accept answer s = (accept_call s.fd, answer)

-- `setNonBlocking`, with the flags that the system answers, as a bit pattern.
unfoldable pub set_non_blocking : ℕ → Socket → List Call
set_non_blocking flags s = get_flags s.fd ∷ set_flags s.fd (bit_or flags nonblock) ∷ []

-- `setReuseAddr`
unfoldable pub set_reuse_addr : Socket → List Call
set_reuse_addr s = reuse_call s.fd ∷ []
