-- ===== src/HtmlMessage.antt =====
-- server/http-server/htmlMessageEndpoint.go: the endpoint that renders a block page for a client whose
-- request was replaced in REQMOD.
pub mod BlockedRequest
use icapegclh.Prelude.{String, Bool, Option, none, some, ◌==◌, if◌then◌else◌}
use icapegclh.Prelude.Outcome.{Outcome, done, panicked}
use icapegclh.Consts.{block_page_path}
use icapegclh.FormPart.{Bytes}
use icapegclh.External.{External, ErrorPage}

-- `template.ParseFiles(utils.BlockPagePath)`; `none` is a nil template, whose `Execute` panics.
unfoldable pub parse_block_page : External → Option String
parse_block_page ext = if ext.template_parses block_page_path then some block_page_path else none

-- The page for the data that were decoded; another page is asked for where the default one is parsed
-- again.
unfoldable pub render_page : External → ErrorPage → Outcome Bytes
render_page ext err_page =
    let html_tmpl = parse_block_page ext in
    let again : Option String = elim (parse_block_page ext) [
      | some tmpl ↦ some tmpl
      | none ↦ html_tmpl
    ] in
    elim (if err_page.exception_page == "" then html_tmpl else again) [
      | some tmpl ↦ done (ext.execute_template tmpl err_page)
      | none ↦ panicked
    ]

-- `HtmlMessage`: what is written for the body of a request.
unfoldable pub html_message : External → Bytes → Outcome Bytes
html_message ext body = render_page ext (ext.read_page body)
