-- ===== src/Findings/Site/Bounds.antt =====
-- The numbers of a site stay in range, and a site that is read has a file and a line.
use coretrace_runtime_analyz.Base.{
  Bytes, Option, Option-cases, [], arith, codes, drop, inl, inr, none, some, u32_mod, ℕ, ◌+◌, ◌<◌,
  ◌≢◌,
}
use coretrace_runtime_analyz.Text.{rfind}
use coretrace_runtime_analyz.Types.{SourceLocation}
use coretrace_runtime_analyz.Findings.Site.{from_chars, parse_site, take_number}

-- A location as the runtime's reports give it: a file, a line from 1 on, and numbers that fit
-- an `unsigned`.
pub record IsSite (l : SourceLocation) : Type 0 where
  pub has_file : l.file ≢ []
  pub has_line : 0 < l.line
  pub line_fits : l.line < u32_mod
  pub column_fits : l.column < u32_mod

-- No location, or one that is in order.
abbrev pub MaybeSite : Option SourceLocation → Type 0
MaybeSite none = Unit
MaybeSite (some l) = IsSite l

abbrev Fits : Option ℕ → Type 0
Fits none = Unit
Fits (some n) = n < u32_mod

from_chars-Fits : (text : Bytes) → Fits (from_chars text).1
unfolding from_chars
from_chars-Fits text = ground arith

pub take_number-lt :
    (site : Bytes) (value : ℕ) → value < u32_mod → (take_number site value).value < u32_mod
unfolding take_number
take_number-lt site value h = elim (Option-cases (rfind site (codes ":"))) [
  | inl e ↦ rw (e, take_number) h
  | inr (colon, e) ↦ rw (e, take_number) (ground (arith, from_chars-Fits (drop (colon + 1) site)))
]

pub parse_site-MaybeSite : (site : Bytes) → MaybeSite (parse_site site)
unfolding parse_site
parse_site-MaybeSite site =
    ground (arith, take_number-lt site 0, take_number-lt (take_number site 0).site 0)
