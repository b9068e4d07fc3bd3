-- ===== src/Pb/Decode/RoundTrip.antt =====
-- `decode` after `encode`: the search finds the package, and every field comes back.
use corpc.Base.{
  ℕ, suc, ◌+◌, ◌-◌, ◌^◌, ◌<◌, ◌≡◌, ◌≢◌, refl, sym, ap, ap₂, ◌∙◌, true, false, some, List, [], ◌∷◌,
  ◌++◌, length, get_elem?, ltb, ◌==◌, arith, At, At-append_left, At-append_right, At-get_elem?,
  length-append, drop, drop-append_right, append_assoc,
}
use corpc.Base.Int.{pos, ◌-ℤ◌, ◌+ℤ◌, int_laws, ltb_ℤ, +ℤ_pos}
use corpc.Byte.{net_bytes, get_int32_from_net_byte, length-net_bytes}
use corpc.Buffer.{TcpBuffer, read_able}
use corpc.Buffer.Invariant.{IsValid, contents, length-contents}
use corpc.Buffer.Consume.{recycle_read-Leaves}
use corpc.Pb.Package.{PbStruct, package_bytes, package_length, pb_start, pb_end}
use corpc.Pb.Decode.{parse_msg_req, decode, find_package}
use corpc.Pb.Decode.Layout.{At-byte, At-int32, length-package_bytes}
use corpc.Pb.Decode.Fields.{IsReadable, parse_msg_req-At}

-- What the decoder makes of `s` when it reads the package of `d`.
abbrev pub decoded : PbStruct → PbStruct → PbStruct
decoded d s = record s {
  pk_len = pos (package_length d);
  msg_req_len = pos (length d.msg_req);
  msg_req = d.msg_req;
  service_name_len = pos (length d.service_full_name);
  service_full_name = d.service_full_name;
  err_code = d.err_code;
  err_info_len = pos (length d.err_info);
  err_info = d.err_info;
  pb_data = d.pb_data;
  decode_succ = true;
}

-- What a valid buffer holds stands in its vector.
contents-At :
    (b : TcpBuffer) (xs : List ℕ) → IsValid b → contents b ≡ xs → At b.buffer b.read_index xs
contents-At b xs v e = record { inside = omega (arith, size); same = rw (size) e }
  where
    size : length xs ≡ read_able b
    size = sym (ap length e) ∙ length-contents b v

-- All of a package but its last byte.
front : PbStruct → List ℕ
front d =
    (pb_start ∷ [])
    ++ (net_bytes (pos (package_length d))
        ++ (net_bytes (pos (length d.msg_req))
            ++ (d.msg_req
                ++ (net_bytes (pos (length d.service_full_name))
                    ++ (d.service_full_name
                        ++ (net_bytes d.err_code
                            ++ (net_bytes (pos (length d.err_info))
                                ++ (d.err_info ++ (d.pb_data ++ (net_bytes (pos 1)))))))))))

package_bytes-front : (d : PbStruct) → package_bytes d ≡ front d ++ (pb_end ∷ [])
unfolding package_bytes front
package_bytes-front d = simp append_assoc

length-front : (d : PbStruct) → length (front d) + 1 ≡ package_length d
unfolding front
length-front d = simp (length-append, length-net_bytes) (omega arith)

module _ (mem : List ℕ) (start : ℕ) (d : PbStruct) (readable : IsReadable d)
    (at : At mem start (package_bytes d)) where
  abbrev last_index : ℕ
  last_index = start + length (front d)

  first-At :
      (get_elem? mem start ≡ some pb_start)
      × (get_int32_from_net_byte mem (start + 1) ≡ some (pos (package_length d)))
  unfolding package_bytes
  first-At =
      let (first, at₁) = At-byte mem start pb_start _ at in
      (
        first,
        (At-int32 mem (start + 1) (pos (package_length d)) _ (omega (arith, readable.small)) at₁).0,
      )

  last-At : get_elem? mem last_index ≡ some pb_end
  last-At =
      At-get_elem? mem last_index pb_end
        (At-append_right mem start (front d) (pb_end ∷ []) (rw (package_bytes-front d) at at))

  -- The search stops at once at a package that stands where it begins.
  find_package-At :
      (write_index n : ℕ)
      → last_index < write_index
      → write_index < 2 ^ 31
      → find_package mem write_index start (suc n)
        ≡ some (
            some (record {
              start_index = start;
              end_index = last_index;
              pk_len = pos (package_length d);
            }))
  unfolding find_package
  find_package-At write_index n inside small =
      let (first, len) = first-At in
      let more : ltb (start + 1) write_index ≡ true = ground (arith, length-front d) in
      let fits : ltb_ℤ (pos start +ℤ pos (package_length d)) (pos (2 ^ 31)) ≡ true =
        rw (+ℤ_pos start (package_length d)) (ground (arith, length-front d)) in
      let last : pos start +ℤ pos (package_length d) -ℤ pos 1 ≡ pos last_index =
        omega (int_laws, length-front d) in
      let reached : ltb_ℤ (pos last_index) (pos write_index) ≡ true = ground arith in
      rw first (rw more (rw len (rw (fits, last) (rw reached (rw last-At)))))

  -- Every field of the package is read back.
  parse-At :
      (s : PbStruct)
      → parse_msg_req mem start last_index
          (record s { pk_len = pos (package_length d); decode_succ = false })
        ≡ some (decoded d s)
  unfolding package_bytes
  parse-At s =
      let at₁ = (At-byte mem start pb_start _ at).1 in
      let at₂ =
        (At-int32 mem (start + 1) (pos (package_length d)) _ (omega (arith, readable.small))
          at₁).1 in
      parse_msg_req-At mem last_index d readable (pb_end ∷ []) start _ at₂
        (omega (arith, length-front d)) refl

-- No byte could start a package.
abbrev pub NoStart : List ℕ → Type 0
NoStart [] = Unit
NoStart (c ∷ cs) = (c ≢ pb_start) × NoStart cs

-- The search passes over bytes that start no package.
find_package-skip :
    (mem : List ℕ) (write_index start : ℕ) (skipped : List ℕ) (n : ℕ)
    → NoStart skipped
    → At mem start skipped
    → find_package mem write_index start (length skipped + n)
      ≡ find_package mem write_index (start + length skipped) n
unfolding find_package
find_package-skip mem write_index start [] n h at =
    ap₂ (find_package mem write_index) (omega arith) (omega arith)
find_package-skip mem write_index start (c ∷ cs) n h at =
    let (first, at₁) = At-byte mem start c cs at in
    let other : (c == pb_start) ≡ false = ground (arith, h.0) in
    let more : suc (length cs) + n ≡ suc (length cs + n) = omega arith in
    let next : start + suc (length cs) ≡ start + 1 + length cs = omega arith in
    rw (more, next)
      (rw first (rw other (find_package-skip mem write_index (start + 1) cs n h.1 at₁)))

module _ (b : TcpBuffer) (d s : PbStruct) (skipped rest : List ℕ) (v : IsValid b)
    (readable : IsReadable d) (small : b.write_index < 2 ^ 31) (clean : NoStart skipped)
    (e : contents b ≡ skipped ++ (package_bytes d ++ rest)) where
  abbrev start : ℕ
  start = b.read_index + length skipped

  all-At : At b.buffer b.read_index (skipped ++ (package_bytes d ++ rest))
  all-At = contents-At b _ v e

  package-At : At b.buffer start (package_bytes d)
  package-At =
      At-append_left b.buffer start (package_bytes d) rest
        (At-append_right b.buffer b.read_index skipped _ all-At)

  long : length skipped + (package_length d + length rest) ≡ read_able b
  long = omega (
    arith,
    ap length e,
    length-contents b v,
    length-package_bytes d,
    length-append skipped (package_bytes d ++ rest),
    length-append (package_bytes d) rest,
  )

  found :
      find_package b.buffer b.write_index b.read_index (b.write_index - b.read_index)
      ≡ some (
          some (record {
            start_index = start;
            end_index = start + length (front d);
            pk_len = pos (package_length d);
          }))
  found =
      let rounds : b.write_index - b.read_index
          ≡ length skipped + suc (package_length d + length rest - 1) =
        omega (arith, long, length-front d) in
      rw rounds (
        find_package-skip b.buffer b.write_index b.read_index skipped _ clean
          (At-append_left b.buffer b.read_index skipped _ all-At)
        ∙ find_package-At b.buffer start d readable package-At b.write_index _
            (omega (arith, long, length-front d, v.read_before_write)) small)

  -- After `skipped` bytes none of which is the start byte 0x02, the package behind them is found and
  -- decoded with the number, the service name, the error code and text, the data and the lengths that
  -- were encoded. What leaves the buffer is as many bytes as the package has, counted from the read
  -- index and not from the start of the package. The buffer is valid and its write index below 2^31,
  -- and the package fits the decoder's arrays: its number is not empty and has less than 50
  -- characters, its service name and error text have less than 512 each, none of the three has a NUL,
  -- its error code is an int32_t, and its length is below 2^31.
  pub decode-skipped :
      (b' : TcpBuffer) × (decode b s ≡ some (b', decoded d s))
      × IsValid b'
      × (contents b' ≡ drop (package_length d) (skipped ++ (package_bytes d ++ rest)))
  unfolding decode
  decode-skipped =
      let (b', e', v', c) = recycle_read-Leaves b (package_length d) v (omega (arith, long)) in
      let taken : pos (start + length (front d) + 1) -ℤ pos start ≡ pos (package_length d) =
        omega (int_laws, length-front d) in
      (
        b',
        rw found (rw (taken, e') (rw (parse-At b.buffer start d readable package-At s))),
        v',
        c ∙ ap (drop (package_length d)) e,
      )

drop-package_bytes :
    (d : PbStruct) (rest : List ℕ) → drop (package_length d) (package_bytes d ++ rest) ≡ rest
drop-package_bytes d rest =
    drop-append_right (package_bytes d) rest (package_length d)
      (omega (arith, length-package_bytes d))
    ∙ (let none_left : package_length d - length (package_bytes d) ≡ 0 =
          omega (arith, length-package_bytes d) in
        rw none_left)

-- The first package of a valid buffer leaves the buffer and is decoded with every field as it
-- was encoded; what stands behind it stays.
pub decode-package_bytes :
    (b : TcpBuffer) (d s : PbStruct) (rest : List ℕ)
    → IsValid b
    → IsReadable d
    → b.write_index < 2 ^ 31
    → contents b ≡ package_bytes d ++ rest
    → (b' : TcpBuffer) × (decode b s ≡ some (b', decoded d s)) × IsValid b' × (contents b' ≡ rest)
decode-package_bytes b d s rest v readable small e =
    let (b', e', v', c) = decode-skipped b d s [] rest v readable small tt e in
    (b', e', v', c ∙ drop-package_bytes d rest)
