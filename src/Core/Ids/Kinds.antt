-- ===== src/Core/Ids/Kinds.antt =====
-- src/core/Ids.cpp, `IdKindToString` and `StringToIdKind`: the kinds and their spellings.
use Prim.Native.String.{String}
use veritas.Common.{
  List, [], ◌∷◌, Bytes, codes, bytes_eq, bytes_eq_iff, if◌then◌else◌, Option, none, some, ◌≡◌, refl,
  ap, ◌∙◌, All, Bool-cases, inl, inr,
}

pub data IdKind : Type 0 where
  repository revision build_variant translation_unit function_symbol function_variant : IdKind
  function_body function_summary fact scc analysis_run abstract_object : IdKind
  model value_ref memory_ref call_site basic_block_summary cpg_projection : IdKind
  cpg_edge unknown_node evidence : IdKind

spelling : IdKind → String
spelling repository = "repo"
spelling revision = "rev"
spelling build_variant = "bv"
spelling translation_unit = "tu"
spelling function_symbol = "funcsym"
spelling function_variant = "funcvar"
spelling function_body = "funcbody"
spelling function_summary = "summary"
spelling fact = "fact"
spelling scc = "scc"
spelling analysis_run = "run"
spelling abstract_object = "obj"
spelling model = "model"
spelling value_ref = "valref"
spelling memory_ref = "memref"
spelling call_site = "callsite"
spelling basic_block_summary = "bbsummary"
spelling cpg_projection = "cpgproj"
spelling cpg_edge = "edge"
spelling unknown_node = "unknown"
spelling evidence = "evidence"

-- `IdKindToString`
unfoldable pub id_kind_to_string : IdKind → Bytes
unfolding spelling
id_kind_to_string k = codes (spelling k)

-- The table of `StringToIdKind`.
abbrev mapping : List (Bytes × IdKind)
mapping =
    (codes "repo", repository)
    ∷ (codes "rev", revision)
    ∷ (codes "bv", build_variant)
    ∷ (codes "tu", translation_unit)
    ∷ (codes "funcsym", function_symbol)
    ∷ (codes "funcvar", function_variant)
    ∷ (codes "funcbody", function_body)
    ∷ (codes "summary", function_summary)
    ∷ (codes "fact", fact)
    ∷ (codes "scc", scc)
    ∷ (codes "run", analysis_run)
    ∷ (codes "obj", abstract_object)
    ∷ (codes "model", model)
    ∷ (codes "valref", value_ref)
    ∷ (codes "memref", memory_ref)
    ∷ (codes "callsite", call_site)
    ∷ (codes "bbsummary", basic_block_summary)
    ∷ (codes "cpgproj", cpg_projection)
    ∷ (codes "edge", cpg_edge)
    ∷ (codes "unknown", unknown_node)
    ∷ (codes "evidence", evidence)
    ∷ []

-- `mapping.find(str)`
find_kind : List (Bytes × IdKind) → Bytes → Option IdKind
find_kind [] s = none
find_kind ((t, k) ∷ rest) s = if bytes_eq s t then some k else find_kind rest s

unfoldable pub string_to_id_kind : Bytes → Option IdKind
unfolding find_kind
string_to_id_kind s = find_kind mapping s

-- Every kind is read back from its spelling.
pub string_to_id_kind-id_kind_to_string :
    (k : IdKind) → string_to_id_kind (id_kind_to_string k) ≡ some k
unfolding string_to_id_kind id_kind_to_string bytes_eq
string_to_id_kind-id_kind_to_string repository = refl
string_to_id_kind-id_kind_to_string _ = refl

abbrev IsSpelled : Bytes × IdKind → Type 0
IsSpelled e = e.0 ≡ id_kind_to_string e.1

some_injective : {a b : IdKind} → some a ≡ some b → a ≡ b
some_injective e = cc

find_kind-IsSpelled :
    (table : List (Bytes × IdKind)) (s : Bytes) {k : IdKind}
    → All IsSpelled table
    → find_kind table s ≡ some k
    → s ≡ id_kind_to_string k
unfolding find_kind
find_kind-IsSpelled [] s all h = cc
find_kind-IsSpelled ((t, j) ∷ rest) s all h = elim (Bool-cases (bytes_eq s t)) [
  | inl same ↦
      (bytes_eq_iff s t).0 same ∙ all.0 ∙ ap id_kind_to_string (some_injective (rw same at h))
  | inr differs ↦ find_kind-IsSpelled rest s all.1 (rw differs at h)
]

mapping-IsSpelled : All IsSpelled mapping
unfolding id_kind_to_string
mapping-IsSpelled = (
  refl,
  (
    refl,
    (
      refl,
      (
        refl,
        (
          refl,
          (
            refl,
            (
              refl,
              (
                refl,
                (
                  refl,
                  (
                    refl,
                    (
                      refl,
                      (
                        refl,
                        (refl, (refl, (refl, (refl, (refl, (refl, (refl, (refl, (refl, tt))))))))),
                      ),
                    ),
                  ),
                ),
              ),
            ),
          ),
        ),
      ),
    ),
  ),
)

-- A text that is read as a kind is the kind's spelling.
pub string_to_id_kind_sound :
    (s : Bytes) {k : IdKind} → string_to_id_kind s ≡ some k → s ≡ id_kind_to_string k
unfolding string_to_id_kind
string_to_id_kind_sound s h = find_kind-IsSpelled mapping s mapping-IsSpelled h
