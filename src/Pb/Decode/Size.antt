-- ===== src/Pb/Decode/Size.antt =====
-- `decode` keeps the size of the buffer's vector.
use corpc.Base.{◌+◌, ◌-◌, ◌≡◌, sym, ap, ◌∙◌, Option, none, some, ◌>>=◌, >>=-eq-some}
use corpc.Base.Int.{pos, ◌-ℤ◌}
use corpc.Buffer.{TcpBuffer, get_size, recycle_read}
use corpc.Buffer.Size.{recycle_read-get_size}
use corpc.Pb.Package.{PbStruct}
use corpc.Pb.Decode.{Found, find_package, take_package, decode}

first_of_pair :
    (c : TcpBuffer) (m : Option PbStruct) {b' : TcpBuffer} {d' : PbStruct}
    → ◌>>=◌ {B = TcpBuffer × PbStruct} m (λ d. some (c, d)) ≡ some (b', d')
    → c ≡ b'
first_of_pair c none e = cc
first_of_pair c (some d) e = cc

take_package-get_size :
    (b : TcpBuffer) (d : PbStruct) (found : Option Found) {b' : TcpBuffer} {d' : PbStruct}
    → take_package b d found ≡ some (b', d')
    → get_size b' ≡ get_size b
unfolding take_package
take_package-get_size b d none {b'} e = let same : b ≡ b' = cc in ap get_size (sym same)
take_package-get_size b d (some f) {b'} e =
    let (c, moved, e₁) =
      >>=-eq-some (recycle_read b (pos (f.end_index + 1) -ℤ pos f.start_index)) _ e in
    let same : c ≡ b' = first_of_pair c _ e₁ in
    ap get_size (sym same)
    ∙ recycle_read-get_size b (pos (f.end_index + 1) -ℤ pos f.start_index) moved

pub decode-get_size :
    (b : TcpBuffer) (d : PbStruct) {b' : TcpBuffer} {d' : PbStruct}
    → decode b d ≡ some (b', d')
    → get_size b' ≡ get_size b
unfolding decode
decode-get_size b d e =
    let (found, _, e₁) =
      >>=-eq-some (find_package b.buffer b.write_index b.read_index (b.write_index - b.read_index))
        _ e in
    take_package-get_size b d found e₁
