-- ===== src/Output/Html/Frame.antt =====
-- The frame of the HTML page, read back: what html_header and html_footer write.
use dhcpd_pools.Base.{◌∙◌, List, [], ◌∷◌, ◌++◌, ◌≡◌, refl}
use dhcpd_pools.Base.Text.{codes}
use dhcpd_pools.Base.Machine.{run, Runs, run_then, AllBytes}
use dhcpd_pools.Double.{Doubles}
use dhcpd_pools.Data.{Bytes}
use dhcpd_pools.Output.{Printf, str, fprintf, format}
use dhcpd_pools.Output.HtmlParts.{Page, html_top, html_scripts, html_header_text, html_footer}
use dhcpd_pools.Output.Xml.Reader.{is_character}
use dhcpd_pools.Output.Html.Reader.{
  Row, Tables, read_so_far, Reader, in_text, read, read_text, read_value, unquoted,
}
use dhcpd_pools.Output.Html.Rows.{newline}

-- What the page takes from outside holds no markup, and the address no quote.
pub record IsPage (page : Page) (outstr : Bytes) : Type 0 where
  pub string_text : AllBytes is_character page.package_string
  pub url_text : AllBytes is_character page.package_url
  pub url_value : AllBytes unquoted page.package_url
  pub file_text : AllBytes is_character page.dhcpdlease_file
  pub time_text : AllBytes is_character outstr

abbrev pub page_open : List Bytes
page_open = codes "div" ∷ codes "body" ∷ codes "html" ∷ []

read_words :
    (file : Bytes) (page : Tables) (rest : Bytes)
    → run read (in_text (codes "File " ++ file) page) (codes " was last modified at " ++ rest)
      ≡ run read (in_text ((codes "File " ++ file) ++ codes " was last modified at ") page) rest
unfolding is_character
read_words file page rest =
    read_text (codes " was last modified at ") rest (codes "File " ++ file) page (
      refl,
      (
        refl,
        (
          refl,
          (
            refl,
            (
              refl,
              (
                refl,
                (
                  refl,
                  (
                    refl,
                    (
                      refl,
                      (
                        refl,
                        (
                          refl,
                          (
                            refl,
                            (
                              refl,
                              (
                                refl,
                                (refl, (refl, (refl, (refl, (refl, (refl, (refl, (refl, tt)))))))),
                              ),
                            ),
                          ),
                        ),
                      ),
                    ),
                  ),
                ),
              ),
            ),
          ),
        ),
      ),
    )

module _ {d : Doubles} (pf : Printf d) where
  -- Inside of the page, with some tables read.
  abbrev pub page_at : List (List Row) → Reader
  page_at tables = in_text newline (read_so_far page_open [] [] tables)

  -- In the page with more elements open.
  abbrev inner_at : List Bytes → List (List Row) → Reader
  inner_at more tables = in_text newline (read_so_far (more ++ page_open) [] [] tables)

  top_read : Runs read (in_text [] (read_so_far [] [] [] [])) (html_top d pf) (page_at [])
  unfolding html_top format read
  top_read = record { reaches = refl }

  modified_read :
      (page : Page) (outstr : Bytes)
      → IsPage page outstr
      → Runs read
          (page_at [])
          (fprintf d pf
            (codes "<small>File %s was last modified at %s</small><hr />\n")
            (str page.dhcpdlease_file ∷ str outstr ∷ []))
          (page_at [])
  unfolding format read
  modified_read page outstr h =
      let small = read_so_far (codes "small" ∷ page_open) [] [] [] in
      let rest = outstr ++ codes "</small><hr />\n" in
      record {
        reaches =
            read_text page.dhcpdlease_file (codes " was last modified at " ++ rest) (codes "File ")
              small h.file_text
            ∙ read_words page.dhcpdlease_file small rest
            ∙ read_text outstr (codes "</small><hr />\n")
                ((codes "File " ++ page.dhcpdlease_file) ++ codes " was last modified at ") small
                h.time_text;
      }

  pub header_read :
      (page : Page) (outstr : Bytes)
      → IsPage page outstr
      → Runs read
          (in_text [] (read_so_far [] [] [] []))
          (html_header_text d pf page.dhcpdlease_file outstr)
          (page_at [])
  unfolding html_header_text
  header_read page outstr h = run_then (html_top d pf) top_read (modified_read page outstr h)

  generated_read :
      (page : Page) (outstr : Bytes) (tables : List (List Row))
      → IsPage page outstr
      → Runs read
          (inner_at (codes "div" ∷ []) tables)
          (fprintf d pf (codes "<small>Generated using %s<br />\n") (str page.package_string ∷ []))
          (inner_at (codes "small" ∷ codes "div" ∷ []) tables)
  unfolding format read
  generated_read page outstr tables h = record {
    reaches =
        read_text page.package_string (codes "<br />\n") (codes "Generated using ")
          (read_so_far (codes "small" ∷ codes "div" ∷ page_open) [] [] tables) h.string_text;
  }

  more_info_read :
      (page : Page) (outstr : Bytes) (tables : List (List Row))
      → IsPage page outstr
      → Runs read
          (inner_at (codes "small" ∷ codes "div" ∷ []) tables)
          (fprintf d pf
            (codes "More info at <a href=\"%s\">%s</a>\n")
            (str page.package_url ∷ str page.package_url ∷ []))
          (inner_at (codes "small" ∷ codes "div" ∷ []) tables)
  unfolding format read
  more_info_read page outstr tables h =
      let outer = codes "small" ∷ codes "div" ∷ page_open in
      let url = page.package_url in
      record {
        reaches =
            read_value url (codes "\">" ++ (url ++ codes "</a>\n")) (codes "a")
              (read_so_far outer [] [] tables) h.url_value
            ∙ read_text url (codes "</a>\n") [] (read_so_far (codes "a" ∷ outer) [] [] tables)
                h.url_text;
      }

  scripts_read :
      (tables : List (List Row))
      → Runs read
          (inner_at (codes "small" ∷ codes "div" ∷ []) tables)
          (html_scripts d pf)
          (in_text newline (read_so_far [] [] [] tables))
  unfolding html_scripts format read
  scripts_read tables = record { reaches = refl }

  well_read :
      (tables : List (List Row))
      → Runs read
          (page_at tables)
          (fprintf d pf (codes "<br /><div class=\"well well-lg\">\n") [])
          (inner_at (codes "div" ∷ []) tables)
  unfolding format read
  well_read tables = record { reaches = refl }

  pub footer_read :
      (page : Page) (outstr : Bytes) (tables : List (List Row))
      → IsPage page outstr
      → Runs read
          (page_at tables)
          (html_footer d pf page.package_string page.package_url)
          (in_text newline (read_so_far [] [] [] tables))
  unfolding html_footer
  footer_read page outstr tables h = run_then _ (well_read tables) (
      run_then _ (generated_read page outstr tables h)
        (run_then _ (more_info_read page outstr tables h) (scripts_read tables)))
