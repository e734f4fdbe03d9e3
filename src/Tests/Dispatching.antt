-- ===== src/Tests/Dispatching.antt =====
-- A dispatcher with one method, which counts its calls.
use nas_os.Common.{
  ℕ, ◌+◌, String, false, some, [], ◌∷◌, ok, err, succeeds, ◌≡◌, refl, ◌⊎◌, ◌==◌, string_eq,
}
use nas_os.Common.Dict
use nas_os.Common.Dict.{Dict}
use nas_os.Rpc.Transport.{answer_of}
use nas_os.Rpc.Dispatcher.{MethodSpec, RpcRequest, HandlerFn, handler, handle}
use nas_os.Rpc.Dispatcher.Reached.{seen, handle-reaches}

abbrev any_params : MethodSpec ℕ
any_params = record {
  model_validate = λ params. ok params;
  result_validate = λ result. err "no result is valid";
}

abbrev registry : Dict String (MethodSpec ℕ)
registry = ("count", any_params) ∷ ("other", any_params) ∷ []

abbrev count : HandlerFn ℕ String ℕ
count params ctx s = (ok (s + params), s + params)

abbrev handlers : Dict String (HandlerFn ℕ String ℕ)
handlers = ("count", count) ∷ []

abbrev request : RpcRequest ℕ String
request = record { id = "r1"; method = "other"; params = 3; ctx = "root" }

handle-reaches_example :
    ((succeeds (answer_of 0 (handle registry handlers request 4).0) ≡ false)
      × ((handle registry handlers request 4).1 ≡ 4))
    ⊎ ((spec : MethodSpec ℕ) × (fn : HandlerFn ℕ String ℕ) × (params : ℕ) × (Dict.lookup "other"
            registry
          ≡ some spec)
        × (Dict.lookup "other" handlers ≡ some fn)
        × (spec.model_validate 3 ≡ ok params)
        × ((handle registry handlers request 4).1 ≡ (fn params "root" 4).1)
        × (answer_of 0 (handle registry handlers request 4).0 ≡ seen (fn params "root" 4).0))
handle-reaches_example = handle-reaches registry handlers request 0 4

registered : handler registry "count" count [] ≡ ok handlers
unfolding handler string_eq Dict.lookup Dict.insert
registered = refl

differ : (request.method == "count") ≡ false
unfolding string_eq
differ = refl
