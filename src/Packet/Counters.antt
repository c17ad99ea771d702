-- ===== src/Packet/Counters.antt =====
-- The counters of received bytes in src/packet.c. `receiveB` is an `u_short`, `receiveK` a `long`
-- that is taken to be large enough.
use solidircd.Base.{
  ℕ, ◌+◌, ◌*◌, ◌/◌, ◌%◌, ◌<◌, ◌≡◌, refl, Option, none, some, ◌==◌, ltb, if◌then◌else◌, arith, inl,
  inr, Bool-cases,
}

-- `receiveK` and `receiveB`
pub record Counter : Type 0 where
  pub receive_k : ℕ
  pub receive_b : ℕ

-- `receiveB += length`
unfoldable pub add_bytes : ℕ → Counter → Counter
add_bytes length c = record c { receive_b = (c.receive_b + length) % 65536 }

unfoldable pub carry : Counter → Counter
carry c = record { receive_k = c.receive_k + c.receive_b / 1024; receive_b = c.receive_b % 1024 }

-- `if (receiveB & 0x0400)`: the bit, and not that the number is 1024 or more
unfoldable pub carry_on_bit : Counter → Counter
unfolding carry
carry_on_bit c = if (c.receive_b / 1024) % 2 == 1 then carry c else c

-- `if (receiveB > 1023)`
unfoldable pub carry_above : Counter → Counter
unfolding carry
carry_above c = if ltb 1023 c.receive_b then carry c else c

-- `me`, `cptr` and the listener of `cptr`, if it has one
pub record Traffic : Type 0 where
  pub me : Counter
  pub cptr : Counter
  pub lptr : Option Counter

-- The head of `dopacket`. The bytes of `me` are carried when there is no listener.
unfoldable pub count_bytes : ℕ → Traffic → Traffic
unfolding add_bytes carry_on_bit
count_bytes length t =
    let me = add_bytes length t.me in
    let cptr = carry_on_bit (add_bytes length t.cptr) in
    elim t.lptr [
      | none ↦ record { me = carry_on_bit me; cptr = cptr; lptr = none }
      | some l ↦ record { me = me; cptr = cptr; lptr = some (carry_on_bit (add_bytes length l)) }
    ]

-- The same in `client_dopacket`
unfoldable pub count_line : ℕ → Traffic → Traffic
unfolding add_bytes carry_above
count_line length t = record t {
  me = carry_above (add_bytes length t.me);
  cptr = carry_above (add_bytes length t.cptr);
}

-- The bytes that a counter stands for
unfoldable pub bytes_in : Counter → ℕ
bytes_in c = 1024 * c.receive_k + c.receive_b

-- Read in pieces of 1024 bytes at most, a counter keeps below 1024 and loses nothing.
carried :
    (length : ℕ) (c : Counter)
    → c.receive_b < 1024
    → length < 1025
    → (bytes_in (carry_on_bit (add_bytes length c)) ≡ bytes_in c + length)
      × ((carry_on_bit (add_bytes length c)).receive_b < 1024)
unfolding carry_on_bit carry add_bytes bytes_in
carried length c small short =
    elim (Bool-cases (((c.receive_b + length) % 65536 / 1024) % 2 == 1)) [
      | inl on ↦ rw on (omega (arith, small, short), omega (arith, small, short))
      | inr off ↦ rw off (omega (arith, small, short), ground (arith, small, short, off))
    ]

added :
    (length : ℕ) (c : Counter)
    → c.receive_b + length < 65536
    → bytes_in (add_bytes length c) ≡ bytes_in c + length
unfolding add_bytes bytes_in
added length c room = omega (arith, room)

counted_above :
    (length : ℕ) (c : Counter)
    → c.receive_b + length < 65536
    → (bytes_in (carry_above (add_bytes length c)) ≡ bytes_in c + length)
      × ((carry_above (add_bytes length c)).receive_b < 1024)
unfolding carry_above carry add_bytes bytes_in
counted_above length c room = elim (Bool-cases (ltb 1023 ((c.receive_b + length) % 65536))) [
  | inl on ↦ rw on (omega (arith, room), omega (arith, room))
  | inr off ↦ rw off (omega (arith, room), ground (arith, room, off))
]

-- On a connection with a listener: a packet of 1024 bytes at most, with the counts of the client and
-- of the listener below 1024 and room in the 16 bits of the server's own. Then all three have counted
-- it, and those of the client and of the listener are below 1024 again.
pub count_bytes_lem :
    (length : ℕ) (me cptr lptr : Counter)
    → length < 1025
    → me.receive_b + length < 65536
    → cptr.receive_b < 1024
    → lptr.receive_b < 1024
    → (t : Traffic) × (l : Counter) × (count_bytes length
          (record { me = me; cptr = cptr; lptr = some lptr })
        ≡ t)
      × (t.lptr ≡ some l)
      × (bytes_in t.me ≡ bytes_in me + length)
      × (bytes_in t.cptr ≡ bytes_in cptr + length)
      × (bytes_in l ≡ bytes_in lptr + length)
      × (t.cptr.receive_b < 1024)
      × (l.receive_b < 1024)
unfolding count_bytes
count_bytes_lem length me cptr lptr short room own theirs =
    let (c, small) = carried length cptr own short in
    let (l, small') = carried length lptr theirs short in
    (
      count_bytes length (record { me = me; cptr = cptr; lptr = some lptr }),
      carry_on_bit (add_bytes length lptr),
      refl,
      refl,
      added length me room,
      c,
      l,
      small,
      small',
    )

-- The same of client_dopacket, which tests for more than 1023: a line of any length for which there is room
-- in the 16 bits.
pub count_line_lem :
    (length : ℕ) (t : Traffic)
    → t.me.receive_b + length < 65536
    → t.cptr.receive_b + length < 65536
    → (bytes_in (count_line length t).me ≡ bytes_in t.me + length)
      × (bytes_in (count_line length t).cptr ≡ bytes_in t.cptr + length)
      × ((count_line length t).me.receive_b < 1024)
      × ((count_line length t).cptr.receive_b < 1024)
unfolding count_line
count_line_lem length t room room' =
    let (m, small) = counted_above length t.me room in
    let (c, small') = counted_above length t.cptr room' in (m, c, small, small')
