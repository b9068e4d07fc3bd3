-- ===== src/RpcDispatcher/Serving.antt =====
-- The Pb dispatcher as the dispatcher of a connection.
use corpc.Base.{ℕ, ◌^◌, ◌<◌, List, length, ap, ◌++◌, arith}
use corpc.Buffer.{TcpBuffer}
use corpc.Buffer.Invariant.{IsValid, contents}
use corpc.Buffer.Refine.{Leaves}
use corpc.Pb.Package.{PbStruct, package_bytes, package_length}
use corpc.Pb.Encode.{with_number, encode_appends}
use corpc.Connection.Execute.{Dispatcher}
use corpc.RpcDispatcher.{ServiceMap, make_reply, dispatch}
use corpc.RpcDispatcher.Answers.{make_reply-Reply}

module _ (services : ServiceMap) (generated again : List ℕ) where
  -- The requests that get a package: they name a service, and their reply fits an `int32_t`.
  abbrev pub TakesRequest : PbStruct → Type 0
  TakesRequest d =
      (0 < length d.service_full_name)
      × (length d.service_full_name < 2 ^ 64)
      × (package_length (with_number again (make_reply services generated d)) < 2 ^ 31)

  pub dispatch-Leaves :
      (d : PbStruct) (out : TcpBuffer)
      → TakesRequest d
      → IsValid out
      → Leaves
          (contents out ++ package_bytes (with_number again (make_reply services generated d)))
          (dispatch services generated again d out)
  unfolding dispatch
  dispatch-Leaves d out (named, bound, small) v =
      let r = make_reply-Reply services generated d bound in
      let long : 0 < length (make_reply services generated d).service_full_name =
        omega (arith, ap length r.named) in
      let (out', e, v', c) =
        encode_appends again out (make_reply services generated d) v long small in
      (out', rw e, v', c)

  abbrev pub pb_dispatcher : Dispatcher
  pb_dispatcher = record {
    dispatch = dispatch services generated again;
    Takes = TakesRequest;
    answer = λ d. package_bytes (with_number again (make_reply services generated d));
    appends = dispatch-Leaves;
  }
