-- ===== src/Tunnel/Cemi.antt =====
-- The frames of tunnel.rs: what is built here and not in `knx_pico`, and how a telegram is read.
use Prim.Native.Nat.{bit_and, bit_or}
use native.Mathlib.Decide.{dec_lt}
use aimdb.Prelude.{
  ℕ, zero, suc, ◌+◌, ◌-◌, ◌*◌, ◌/◌, ◌%◌, ◌^◌, ◌≤◌, ◌<◌, ◌≡◌, refl, Bool, true, false, ◌&&◌, [], ◌∷◌,
  ◌++◌, Option, none, some, length, arith, ltb, leb, ◌==◌, if◌then◌else◌, Str,
}
use aimdb.Tunnel.{
  max_apdu, max_cemi, GroupWrite, LocalEndpoint, nat, explicit, Knx, LData, CemiFrame, ServiceType,
  connect_response,
}

-- `heapless::Vec::push` and `extend_from_slice`, whose failure the source ignores.
abbrev push : Str → ℕ → Str
push v b = if ltb (length v) max_cemi then v ++ (b ∷ []) else v

abbrev extend : Str → Str → Str
extend v bs = if leb (length v + length bs) max_cemi then v ++ bs else v

abbrev be16 : ℕ → Str
be16 n = n / 256 % 256 ∷ n % 256 ∷ []

-- The header up to the destination address.
cemi_head : ℕ → Str
cemi_head addr =
    extend (extend (push (push (push (push [] 0x11) 0x00) 0xBC) 0xE0) (0 ∷ 0 ∷ [])) (be16 addr)

short_npdu : Str → ℕ → Str
short_npdu v value = push (push (push v 0x01) 0x00) (bit_or 0x80 (bit_and value 0x3F))

long_npdu : Str → Str → Str
long_npdu v bytes = extend (push (push (push v ((2 + length bytes - 1) % 256)) 0x00) 0x80) bytes

cemi_npdu : Str → Str → Str
unfolding short_npdu long_npdu
cemi_npdu v [] = long_npdu v []
cemi_npdu v (b ∷ []) = if ltb b 64 then short_npdu v b else long_npdu v (b ∷ [])
cemi_npdu v (b ∷ c ∷ bs) = long_npdu v (b ∷ c ∷ bs)

pub build_group_write_cemi : ℕ → Str → Str
unfolding cemi_head cemi_npdu
build_group_write_cemi addr bytes = cemi_npdu (cemi_head addr) bytes

pub data PublishError : Type 0 where
  invalid_destination message_too_large : PublishError

pub data Tried : Type 0 where
  ok : GroupWrite → Tried
  err : PublishError → Tried

module _ (knx : Knx) where
  unfoldable pub try_new : Str → Str → Tried
  try_new destination payload = elim (knx.parse_address destination) [
    | none ↦ err invalid_destination
    | some addr ↦
        if ltb max_apdu (length payload)
        then err message_too_large
        else ok (record { group_addr = addr; data_bytes = payload })
  ]

  unfoldable pub build_connect_request : LocalEndpoint → Str
  build_connect_request nat = knx.connect_request (0 ∷ 0 ∷ 0 ∷ 0 ∷ []) 0
  build_connect_request (explicit ip port) = knx.connect_request ip port

  unfoldable pub build_connectionstate_request : ℕ → Str
  build_connectionstate_request channel_id =
      knx.connectionstate_request channel_id (0 ∷ 0 ∷ 0 ∷ 0 ∷ []) 0

  is_connect_response : ServiceType → Bool
  is_connect_response connect_response = true
  is_connect_response _ = false

  unfoldable pub parse_connect_response : Str → Option (ℕ × ℕ)
  unfolding is_connect_response
  parse_connect_response bytes = elim (knx.parse_frame bytes) [
    | none ↦ none
    | some (service, body) ↦
        if is_connect_response service then knx.parse_connect_response body else none
  ]

  telegram_payload : LData → Str → Str
  telegram_payload l [] = l.six_bit_value ∷ []
  telegram_payload l (b ∷ bs) = b ∷ bs

  ldata_telegram : LData → Option (ℕ × Str)
  unfolding telegram_payload
  ldata_telegram l =
      if l.is_group_write
      then (elim l.destination_group [
        | none ↦ none
        | some dest ↦ some (dest, telegram_payload l l.payload)
      ])
      else none

  cemi_telegram : CemiFrame → Option (ℕ × Str)
  unfolding ldata_telegram
  cemi_telegram c =
      if c.is_ldata then (elim c.as_ldata [ none ↦ none | some l ↦ ldata_telegram l ]) else none

  unfoldable pub parse_telegram : Str → Option (ℕ × Str)
  unfolding cemi_telegram
  parse_telegram cemi = elim (knx.parse_cemi cemi) [ none ↦ none | some c ↦ cemi_telegram c ]

-- The six-bit value in the APCI octet, checked for each value.
same_up_to : ℕ → (ℕ → ℕ) → (ℕ → ℕ) → Bool
same_up_to zero f g = true
same_up_to (suc n) f g = f n == g n && same_up_to n f g

same_up_to_sound : (n : ℕ) (f g : ℕ → ℕ) (x : ℕ) → same_up_to n f g ≡ true → x < n → f x ≡ g x
unfolding same_up_to
same_up_to_sound zero f g x h l = absurd (omega arith)
same_up_to_sound (suc n) f g x h l = ground (arith, same_up_to_sound n f g x)

six_bit : (v : ℕ) → v < 64 → bit_or 0x80 (bit_and v 0x3F) ≡ 128 + v
unfolding same_up_to
six_bit v h = same_up_to_sound 64 (λ v. bit_or 0x80 (bit_and v 0x3F)) (λ v. 128 + v) v refl h

abbrev head_bytes : ℕ → Str → Str
head_bytes addr rest =
    0x11 ∷ 0x00 ∷ 0xBC ∷ 0xE0 ∷ 0x00 ∷ 0x00 ∷ addr / 256 % 256 ∷ addr % 256 ∷ rest

-- One byte below 64.
abbrev IsShort : Str → Type 0
IsShort [] = ⊥
IsShort (b ∷ []) = b < 64
IsShort (b ∷ c ∷ bs) = ⊥

build_short :
    (addr v : ℕ)
    → v < 64
    → build_group_write_cemi addr (v ∷ []) ≡ head_bytes addr (1 ∷ 0 ∷ (128 + v) ∷ [])
unfolding build_group_write_cemi
build_short addr v h = ground (arith, six_bit v h)

build_long :
    (addr : ℕ) (bytes : Str)
    → length bytes ≤ max_apdu
    → ¬ IsShort bytes
    → build_group_write_cemi addr bytes ≡ head_bytes addr ((length bytes + 1) ∷ 0 ∷ 128 ∷ bytes)
unfolding build_group_write_cemi
build_long addr [] h n = refl
build_long addr (b ∷ []) h n = ground arith
build_long addr (b ∷ c ∷ bs) h n = unfold long_npdu in ground arith

-- How KNX reads an L_Data request, apart from the code that writes one: message code 0x11 and no
-- additional information; a standard frame of low priority to a group address, with 6 hops; a source that
-- the interface fills in; the length octet, which counts what follows the TPCI octet; an unnumbered
-- GroupValueWrite, whose value stands in the six bits of the last octet or in the octets behind it.
abbrev is_head : (code info ctrl1 ctrl2 src_hi src_lo : ℕ) → Bool
is_head code info ctrl1 ctrl2 src_hi src_lo =
    code == 0x11 && info == 0 && ctrl1 == 0xBC && ctrl2 == 0xE0 && src_hi == 0 && src_lo == 0

abbrev value_of : ℕ → Str → Option Str
value_of apci [] = if leb 128 apci && ltb apci 192 then some ((apci - 128) ∷ []) else none
value_of apci (b ∷ bs) = if apci == 128 then some (b ∷ bs) else none

pub frame_value : Str → Option (ℕ × Str)
frame_value (code ∷ info ∷ c1 ∷ c2 ∷ s1 ∷ s2 ∷ hi ∷ lo ∷ n ∷ tpci ∷ apci ∷ rest) =
    if is_head code info c1 c2 s1 s2 && n == suc (length rest) && tpci == 0
    then (elim (value_of apci rest) [ none ↦ none | some v ↦ some (hi * 256 + lo, v) ])
    else none
frame_value _ = none

-- A reader that checks every octet of the frame finds the address and the payload of a group write again,
-- for every address of 16 bits and every payload of 1 to 254 bytes; and the frame fits its buffer.
pub frame_value-build :
    (addr : ℕ) (bytes : Str)
    → addr < 2 ^ 16
    → 0 < length bytes
    → length bytes ≤ max_apdu
    → (frame_value (build_group_write_cemi addr bytes) ≡ some (addr, bytes))
      × (length (build_group_write_cemi addr bytes) ≤ max_cemi)
unfolding frame_value
frame_value-build addr [] a l h = absurd (omega arith)
frame_value-build addr (b ∷ []) a l h = elim (dec_lt b 64) [
  | yes small ↦ rw (build_short addr b small) (ground arith, omega arith)
  | no big ↦ rw (build_long addr (b ∷ []) h big) (ground arith, omega arith)
]
frame_value-build addr (b ∷ c ∷ bs) a l h =
    rw (build_long addr (b ∷ c ∷ bs) h (λ x. x)) (ground arith, omega arith)
