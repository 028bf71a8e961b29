-- ===== src/Http/Render.antt =====
-- bootcfg/http/render.go, and the libraries whose work the handlers write out
use coreos_baremetal.Prelude.{Bool, Option, none, some, List, [], ◌∷◌}
use coreos_baremetal.Prelude.Text.{Text, text}
use coreos_baremetal.Golang.Errors.{Error, Result, ok, err, ◌>>=◌}
use coreos_baremetal.Golang.Dict.{Dict}
use coreos_baremetal.Golang.Http.{
  Call, set_header, write_header, write_or_fail, internal_server_error, Request,
}
use coreos_baremetal.Storagepb.Json.{Fields}

-- The packages outside the program that the handlers call.
pub record Libraries : Type 1 where
  -- text/template, with the option `missingkey=error`: what executing writes, and its error
  pub Template : Type 0
  pub new_template : Template
  pub parse_template : Template → Text → Result Template
  pub execute : Template → Fields → Text × Option Error
  -- coreos-cloudinit/config
  pub is_cloud_config : Text → Bool
  pub is_script : Text → Bool
  pub new_cloud_config : Text → Option Error
  -- ignition/config and fuze/config
  pub parse_ignition : Text → Option Error
  pub IgnitionConfig : Type 0
  pub parse_fuze : Text → Result IgnitionConfig
  pub marshal_ignition : IgnitionConfig → Result Text
  -- the headers by which `http.ServeContent` describes a text
  pub describe : Text → Dict Text
  -- what it answers to a request for a part of a text, or on a condition
  pub serve_conditional : Request → Text → List Call

-- `(*Server).writeJSON`
unfoldable pub write_json : Text → List Call
write_json data' =
    set_header (text "Content-Type") (text "application/json") ∷ write_or_fail data' ∷ []

-- `(*Server).renderJSON`, given what `json.Marshal` returns.
unfoldable pub render_json : Result Text → List Call
render_json (ok js) = write_json js
render_json (err e) = write_header internal_server_error ∷ []

module _ (lib : Libraries) where
  open lib use {Template, parse_template, new_template, execute}

  -- The loop of `renderTemplate`: each text is parsed into the same template.
  unfoldable pub parse_all : Template → List Text → Result Template
  parse_all tmpl [] = ok tmpl
  parse_all tmpl (content ∷ contents) =
      parse_template tmpl content >>= λ parsed. parse_all parsed contents

  -- `(*Server).renderTemplate` into an empty buffer: the buffer, if there is no error.
  unfoldable pub render_template : Fields → List Text → Result Text
  render_template data' contents = do
    tmpl ← parse_all new_template contents
    elim (execute tmpl data').1 [ none ↦ ok (execute tmpl data').0 | some e ↦ err e ]
