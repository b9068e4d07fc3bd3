-- ===== src/RpcDispatcher/Answers.antt =====
-- What the dispatcher answers.
use corpc.Base.{
  ℕ, ◌+◌, ◌^◌, ◌≤◌, ◌<◌, ◌≡◌, ◌≢◌, refl, ap, ◌∙◌, ◌⊎◌, inl, inr, none, some, List, [], ◌∷◌, ◌++◌,
  arith, length, length-append, codes, ◌==◌, ==_iff, if◌then◌else◌, Bool-cases, Option-cases,
}
use corpc.Base.Int.{ℤ, pos}
use corpc.Buffer.{TcpBuffer}
use corpc.Buffer.Invariant.{IsValid, contents}
use corpc.Pb.Package.{PbStruct, package_bytes, package_length}
use corpc.Pb.Encode.{with_number, encode_nameless, encode_appends}
use corpc.Text.{substr, sub_size, starts_with, next_index, find}
use corpc.Text.Words.{substr_front, substr_rest}
use corpc.Text.Pairs.{IsFree}
use corpc.RpcDispatcher.{
  error_failed_serialize, error_service_not_found, error_method_not_found, error_parse_service_name,
  Service, ServiceMap, parse_service_full_name, fail, reply_data, call_with, call_found,
  call_service, call_named, new_reply, make_reply, dispatch,
}

-- Where the first `c` of a text is.
find_character :
    (c : ℕ) (t : List ℕ)
    → ((find t (c ∷ []) ≡ none) × IsFree c t)
      ⊎ ((x : List ℕ) × (rest : List ℕ) × (t ≡ x ++ c ∷ rest)
          × IsFree c x
          × (find t (c ∷ []) ≡ some (length x)))
unfolding find starts_with
find_character c [] = inl (refl, tt)
find_character c (d ∷ t) = elim (Bool-cases (d == c)) [
  | inl same ↦
      let e : d ≡ c = (==_iff d c).0 same in inr ([], t, ap (λ a. a ∷ t) e, tt, rw same refl)
  | inr other ↦
      let ne : c ≢ d = λ e. ground arith in
      elim (find_character c t) [
        | inl (nowhere, free) ↦ inl (rw other (ap next_index nowhere), (ne, free))
        | inr (x, rest, e, free, there) ↦
            inr (d ∷ x, rest, ap (λ l. d ∷ l) e, (ne, free), rw other (ap next_index there))
      ]
]

-- The two names of a service's full name, which its first dot separates.
abbrev pub Names : List ℕ → List ℕ → List ℕ → Type 0
Names full_name service_name method_name =
    (full_name ≡ service_name ++ b'.' ∷ method_name) × IsFree b'.' service_name

pub parse_service_full_name-Names :
    (full_name : List ℕ)
    → length full_name < 2 ^ 64
    → ((parse_service_full_name full_name ≡ none) × IsFree b'.' full_name)
      ⊎ ((s : List ℕ) × (m : List ℕ) × (parse_service_full_name full_name ≡ some (s, m))
          × Names full_name s m)
unfolding parse_service_full_name
parse_service_full_name-Names full_name bound = elim (find_character b'.' full_name) [
  | inl (nowhere, free) ↦ inl (rw nowhere refl, free)
  | inr (s, m, e, free, there) ↦
      let size = ap length e ∙ length-append s (b'.' ∷ m) in
      let n = sub_size (sub_size (length full_name) (length s)) 1 in
      let long : length m ≤ n = omega arith in
      let front : substr full_name 0 (length s) ≡ some s =
        ap (λ t. substr t 0 (length s)) e ∙ substr_front s (b'.' ∷ m) in
      let back : substr full_name (length s + 1) n ≡ some m =
        ap (λ t. substr t (length s + 1) n) e ∙ substr_rest s b'.' m n long in
      inr (s, m, rw there (rw front (rw back refl)), (e, free))
]

-- The error code and the data of the reply to a request, by what its names and its data lead to.
pub data Answers (services : ServiceMap) (full_name pb_data : List ℕ) : ℤ → List ℕ → Type 0 where
  unnamed : IsFree b'.' full_name → Answers services full_name pb_data error_parse_service_name []
  no_service :
      (s m : List ℕ)
      → Names full_name s m
      → services s ≡ none
      → Answers services full_name pb_data error_service_not_found []
  no_method :
      (s m : List ℕ) (service : Service)
      → Names full_name s m
      → services s ≡ some service
      → service.find_method m ≡ none
      → Answers services full_name pb_data error_method_not_found []
  unread :
      (s m : List ℕ) (service : Service) (method : ℕ)
      → Names full_name s m
      → services s ≡ some service
      → service.find_method m ≡ some method
      → service.parse_request method pb_data ≡ none
      → Answers services full_name pb_data error_failed_serialize []
  unwritten :
      (s m : List ℕ) (service : Service) (method request : ℕ)
      → Names full_name s m
      → services s ≡ some service
      → service.find_method m ≡ some method
      → service.parse_request method pb_data ≡ some request
      → service.serialize_response (service.call_method method request) ≡ none
      → Answers services full_name pb_data error_failed_serialize []
  answered :
      (s m : List ℕ) (service : Service) (method request : ℕ) (bytes : List ℕ)
      → Names full_name s m
      → services s ≡ some service
      → service.find_method m ≡ some method
      → service.parse_request method pb_data ≡ some request
      → service.serialize_response (service.call_method method request) ≡ some bytes
      → Answers services full_name pb_data (pos 0) bytes

-- What the reply has of the request, and its answer.
pub record Reply (services : ServiceMap) (generated : List ℕ) (tmp reply : PbStruct) : Type 0 where
  pub named : reply.service_full_name ≡ tmp.service_full_name
  pub numbered : reply.msg_req ≡ (if length tmp.msg_req == 0 then generated else tmp.msg_req)
  pub answer : Answers services tmp.service_full_name tmp.pb_data reply.err_code reply.pb_data

module _ (services : ServiceMap) (generated : List ℕ) (tmp : PbStruct) where
  abbrev begun : PbStruct
  begun = new_reply generated tmp

  module _ (s m : List ℕ) (names : Names tmp.service_full_name s m) where
    found_Reply :
        (service : Service) (method : ℕ)
        → services s ≡ some service
        → service.find_method m ≡ some method
        → Reply services generated tmp
            (call_with service method begun (service.parse_request method tmp.pb_data))
    unfolding call_with reply_data
    found_Reply service method here found =
        elim (Option-cases (service.parse_request method tmp.pb_data)) [
          | inl bad ↦ rw bad (record {
            named = refl;
            numbered = refl;
            answer = unread s m service method names here found bad;
          })
          | inr (request, parsed) ↦
              elim (Option-cases
                (service.serialize_response (service.call_method method request))) [
                  | inl lost ↦ rw parsed (
                      rw lost (record {
                        named = refl;
                        numbered = refl;
                        answer = unwritten s m service method request names here found parsed lost;
                      }))
                  | inr (bytes, written) ↦ rw parsed (
                      rw written (record {
                        named = refl;
                        numbered = refl;
                        answer =
                            answered s m service method request bytes names here found parsed
                              written;
                      }))
                ]
        ]

    named_Reply : Reply services generated tmp (call_service s m tmp.pb_data begun (services s))
    unfolding call_service call_found
    named_Reply = elim (Option-cases (services s)) [
      | inl absent ↦
          rw absent (record { named = refl; numbered = refl; answer = no_service s m names absent })
      | inr (service, here) ↦ elim (Option-cases (service.find_method m)) [
        | inl unknown ↦ rw here (
            rw unknown (record {
              named = refl;
              numbered = refl;
              answer = no_method s m service names here unknown;
            }))
        | inr (method, found) ↦ rw here (rw found (found_Reply service method here found))
      ]
    ]

  pub make_reply-Reply :
      length tmp.service_full_name < 2 ^ 64
      → Reply services generated tmp (make_reply services generated tmp)
  unfolding make_reply call_named
  make_reply-Reply bound = elim (parse_service_full_name-Names tmp.service_full_name bound) [
    | inl (bad, free) ↦ rw bad (record { named = refl; numbered = refl; answer = unnamed free })
    | inr (s, m, parsed, names) ↦ rw parsed (named_Reply s m names)
  ]

-- A request with a service name is answered by exactly one package, written behind what the write
-- buffer holds. The reply has the request's service name and its number, a generated one if it has
-- none, and the code and the data that the request leads to: the error of the first step that fails
-- (the dot of the name, the service, the method, the parsing, the serialization), or no error and the
-- serialized response of the method. The reply fits an `int32_t`, the name a size_t.
pub dispatch-Reply :
    (services : ServiceMap) (generated again : List ℕ) (tmp : PbStruct) (out : TcpBuffer)
    → IsValid out
    → 0 < length tmp.service_full_name
    → length tmp.service_full_name < 2 ^ 64
    → package_length (with_number again (make_reply services generated tmp)) < 2 ^ 31
    → (reply : PbStruct) × (out' : TcpBuffer) × Reply services generated tmp reply
      × (dispatch services generated again tmp out ≡ some out')
      × IsValid out'
      × (contents out' ≡ contents out ++ package_bytes (with_number again reply))
unfolding dispatch
dispatch-Reply services generated again tmp out v named bound small =
    let r = make_reply-Reply services generated tmp bound in
    let long : 0 < length (make_reply services generated tmp).service_full_name =
      omega (arith, ap length r.named) in
    let (out', e, v', c) =
      encode_appends again out (make_reply services generated tmp) v long small in
    (make_reply services generated tmp, out', r, rw e refl, v', c)

-- A request with an empty service name gets no reply: the dispatcher makes one with the error of the
-- name, which `encode` refuses, and the write buffer stays as it is.
pub dispatch_nameless :
    (services : ServiceMap) (generated again : List ℕ) (tmp : PbStruct) (out : TcpBuffer)
    → tmp.service_full_name ≡ []
    → ((make_reply services generated tmp).err_code ≡ error_parse_service_name)
      × (dispatch services generated again tmp out ≡ some out)
unfolding dispatch make_reply call_named parse_service_full_name find starts_with
dispatch_nameless services generated again tmp out e =
    let reply =
      fail (new_reply generated tmp) error_parse_service_name
        (codes "cannot parse service_name:[" ++ (tmp.service_full_name ++ codes "]")) in
    let bad : parse_service_full_name tmp.service_full_name ≡ none = ap parse_service_full_name e in
    (rw bad refl, rw bad (rw (encode_nameless again out reply e) refl))
