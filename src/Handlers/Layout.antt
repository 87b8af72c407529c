-- ===== src/Handlers/Layout.antt =====
-- internal/handlers/template.go: the layouts of SendEmail. The fixed texts of the page stand line
-- by line.
pub mod Frames
use Prim.Native.String.{String}
use delivery_api.Base.{
  Bool, true, false, ◌||◌, List, [], ◌∷◌, ◌++◌, Str, codes, if◌then◌else◌, is_empty, str_eq,
  to_upper, trim_space,
}

-- The lines of a text with a line feed between them.
abbrev pub page_text : List String → Str
page_text [] = []
page_text (l ∷ []) = codes l
page_text (l ∷ m ∷ ls) = codes l ++ codes "\n" ++ page_text (m ∷ ls)

abbrev pub mark_url : Str
mark_url = codes "https://lisaos.dev/mark.png"

abbrev pub page_start : List String
page_start =
    "<!DOCTYPE html PUBLIC \"-//W3C//DTD XHTML 1.0 Transitional//EN\" \"http://www.w3.org/TR/xhtml1/DTD/xhtml1-transitional.dtd\">"
    ∷ "<html xmlns=\"http://www.w3.org/1999/xhtml\">" ∷ "<head>"
    ∷ "<meta http-equiv=\"Content-Type\" content=\"text/html; charset=UTF-8\"/>"
    ∷ "<meta name=\"viewport\" content=\"width=device-width,initial-scale=1.0\"/>"
    ∷ "<meta name=\"color-scheme\" content=\"light\"/>"
    ∷ "<meta name=\"supported-color-schemes\" content=\"light\"/>" ∷ "<title>" ∷ []

abbrev pub page_mark : List String
page_mark =
    "</title>" ∷ "<!--[if !mso]><!-->"
    ∷ "<link href=\"https://fonts.googleapis.com/css2?family=Rubik:wght@400;500;600;700&display=swap\" rel=\"stylesheet\"/>"
    ∷ "<!--<![endif]-->" ∷ "</head>"
    ∷ "<body style=\"margin:0;padding:0;background-color:#f3f4f6;-webkit-font-smoothing:antialiased;font-family:Rubik,-apple-system,BlinkMacSystemFont,'Segoe UI',Roboto,sans-serif\">"
    ∷ ""
    ∷ "<table width=\"100%\" cellpadding=\"0\" cellspacing=\"0\" border=\"0\" style=\"background-color:#f3f4f6\">"
    ∷ "<tr><td align=\"center\" style=\"padding:48px 16px\">" ∷ ""
    ∷ "<table width=\"520\" cellpadding=\"0\" cellspacing=\"0\" border=\"0\" style=\"max-width:520px;width:100%\">"
    ∷ "" ∷ "<!-- Mark + space wordmark -->" ∷ "<tr><td style=\"padding:0 0 24px\">"
    ∷ "\t<table cellpadding=\"0\" cellspacing=\"0\" border=\"0\">" ∷ "\t\t<tr>"
    ∷ "\t\t\t<td style=\"padding-right:12px;vertical-align:middle\">" ∷ "\t\t\t\t<img src=\"" ∷ []

abbrev pub page_wordmark : List String
page_wordmark =
    "\" alt=\"Construct\" width=\"32\" height=\"32\" style=\"display:block;border:0;outline:none\"/>"
    ∷ "\t\t\t</td>" ∷ "\t\t\t<td style=\"vertical-align:middle\">"
    ∷ "\t\t\t\t<span style=\"font-family:Rubik,-apple-system,BlinkMacSystemFont,'Segoe UI',Roboto,sans-serif;font-size:18px;font-weight:600;color:#9ca3af;letter-spacing:1.5px\">"
    ∷ []

abbrev pub card_start : List String
card_start =
    "</span>" ∷ "\t\t\t</td>" ∷ "\t\t</tr>" ∷ "\t</table>" ∷ "</td></tr>" ∷ "" ∷ "<!-- Card -->"
    ∷ "<tr><td style=\"background-color:#ffffff;border:1px solid #e5e7eb;border-radius:12px;overflow:hidden\">"
    ∷ "<table width=\"100%\" cellpadding=\"0\" cellspacing=\"0\" border=\"0\">" ∷ ""
    ∷ "<tr><td style=\"padding:40px 40px 0\">"
    ∷ "\t<h1 style=\"margin:0 0 24px;font-size:24px;font-weight:600;color:#111827;font-family:Rubik,-apple-system,BlinkMacSystemFont,'Segoe UI',Roboto,sans-serif\">"
    ∷ []

abbrev pub card_content : List String
card_content = "</h1>" ∷ "</td></tr>" ∷ "" ∷ "<tr><td style=\"padding:0 40px 40px\">" ∷ "\t" ∷ []

abbrev pub page_end : List String
page_end =
    "" ∷ "</td></tr>" ∷ "" ∷ "</table>" ∷ "</td></tr>" ∷ "" ∷ "<!-- Footer -->"
    ∷ "<tr><td style=\"padding:28px 0 0\" align=\"center\">"
    ∷ "\t<p style=\"margin:0 0 8px;font-size:12px;color:#9ca3af;font-family:Rubik,-apple-system,BlinkMacSystemFont,'Segoe UI',Roboto,sans-serif;line-height:1.5\">"
    ∷ "\t\tSent through Construct Delivery on behalf of the application that owns the sending domain.<br/>"
    ∷ "\t\tReply directly to this address only if the sender's space supports replies." ∷ "\t</p>"
    ∷ "\t<p style=\"margin:0;font-size:12px;color:#d1d5db;font-family:Rubik,-apple-system,BlinkMacSystemFont,'Segoe UI',Roboto,sans-serif\">"
    ∷ "\t\t<a href=\"https://lisaos.dev\" style=\"color:#d1d5db;text-decoration:none\">lisaos.dev</a>"
    ∷ "\t</p>" ∷ "</td></tr>" ∷ "" ∷ "</table>" ∷ "" ∷ "</td></tr>" ∷ "</table>" ∷ "" ∷ "</body>"
    ∷ "</html>" ∷ []

abbrev pub wordmark_of : Str → Str
wordmark_of space =
    let wordmark = to_upper (trim_space space) in
    if is_empty wordmark then codes "CONSTRUCT" else wordmark

pub construct_layout : Str → Str → Str → Str
construct_layout space title content =
    page_text page_start
    ++ title
    ++ page_text page_mark
    ++ mark_url
    ++ page_text page_wordmark
    ++ wordmark_of space
    ++ page_text card_start
    ++ title
    ++ page_text card_content
    ++ content
    ++ page_text page_end

abbrev pub is_construct : Str → Bool
is_construct name = is_empty name || str_eq name (codes "construct")

pub apply_layout : Str → Str → Str → Str → Str
unfolding construct_layout
apply_layout name space subject html =
    if is_construct name
    then construct_layout space subject html
    else if str_eq name (codes "none")
    then html
    else html
