-- ===== src/Allocate/Forms/Tests.antt =====
-- A response on the CPU of the samples, read back.
use titus_isolate.Prelude.{ℕ, ◌≡◌, refl, [], ◌∷◌, insert, string_eq, ok, raise, value_error}
use titus_isolate.Json.{array, nil, entry, end, object}
use titus_isolate.Processor.Thread.{Thread}
use titus_isolate.Processor.Cpu.{new_cpu}
use titus_isolate.Allocate.Response.{new_response}
use titus_isolate.Allocate.Forms.{deserialize_response, response_dict, parse_cpu}
use titus_isolate.Allocate.Forms.RoundTrip.{
  ThreadIsSet, CoreIsBuilt, CpuIsBuilt, deserialize_response_lem,
}
use titus_isolate.Samples.{cpu8, env, core}

core-IsBuilt : (i : ℕ) (a b : Thread) → ThreadIsSet a → ThreadIsSet b → CoreIsBuilt (core i a b)
core-IsBuilt i a b ha hb = (λ p. cc, (ha, (hb, tt)))

cpu8-CpuIsBuilt : CpuIsBuilt cpu8
cpu8-CpuIsBuilt = (
  λ p. cc,
  (
    (λ p. cc, (core-IsBuilt 0 _ _ (refl, tt) tt, (core-IsBuilt 1 _ _ (refl, tt) tt, tt))),
    ((λ p. cc, (core-IsBuilt 0 _ _ tt tt, (core-IsBuilt 1 _ _ tt tt, tt))), tt),
  ),
)

deserialize_response_lem_example :
    let r = new_response env cpu8 [] "GreedyCpuAllocator" [] in
    deserialize_response env (("X-Titus-Isolate-Cell", "c1") ∷ []) (response_dict r)
    ≡ ok (record r { metadata = insert "cell" "c1" r.metadata })
deserialize_response_lem_example =
    deserialize_response_lem env env cpu8 [] "GreedyCpuAllocator" []
      (("X-Titus-Isolate-Cell", "c1") ∷ []) cpu8-CpuIsBuilt

-- A CPU without a package is refused.
no_packages : parse_cpu (object (entry "packages" (array nil) end)) ≡ raise value_error
unfolding parse_cpu new_cpu
no_packages = refl
