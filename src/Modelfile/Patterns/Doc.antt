-- ===== src/Modelfile/Patterns/Doc.antt =====
-- `DocFilePatterns` of pkg/modelfile/constants.go.
use modctl.Prelude.{Text, codes, List, [], ◌∷◌}

unfoldable pub doc_file_patterns : List Text
doc_file_patterns =
    codes "*.txt"
    ∷ codes "*.md"
    ∷ codes "*.pdf"
    ∷ codes "LICENSE*"
    ∷ codes "README*"
    ∷ codes "SETUP*"
    ∷ codes "*requirements*"
    ∷ codes "*.log"
    ∷ codes "*.tfevents*"
    ∷ codes "*.doc"
    ∷ codes "*.docx"
    ∷ codes "*.docm"
    ∷ codes "*.dot"
    ∷ codes "*.dotx"
    ∷ codes "*.dotm"
    ∷ codes "*.rtf"
    ∷ codes "*.odt"
    ∷ codes "*.ott"
    ∷ codes "*.fodt"
    ∷ codes "*.pages"
    ∷ codes "*.wpd"
    ∷ codes "*.xls"
    ∷ codes "*.xlsx"
    ∷ codes "*.xlsm"
    ∷ codes "*.xlsb"
    ∷ codes "*.xlt"
    ∷ codes "*.xltx"
    ∷ codes "*.xltm"
    ∷ codes "*.ods"
    ∷ codes "*.ots"
    ∷ codes "*.fods"
    ∷ codes "*.numbers"
    ∷ codes "*.csv"
    ∷ codes "*.ppt"
    ∷ codes "*.pptx"
    ∷ codes "*.pptm"
    ∷ codes "*.pps"
    ∷ codes "*.ppsx"
    ∷ codes "*.ppsm"
    ∷ codes "*.pot"
    ∷ codes "*.potx"
    ∷ codes "*.potm"
    ∷ codes "*.odp"
    ∷ codes "*.otp"
    ∷ codes "*.fodp"
    ∷ codes "*.key"
    ∷ codes "*.epub"
    ∷ codes "*.mobi"
    ∷ codes "*.azw"
    ∷ codes "*.azw3"
    ∷ codes "*.fb2"
    ∷ codes "*.fb3"
    ∷ codes "*.lit"
    ∷ codes "*.pdb"
    ∷ codes "*.djvu"
    ∷ codes "*.djv"
    ∷ codes "*.html"
    ∷ codes "*.htm"
    ∷ codes "*.xhtml"
    ∷ codes "*.mhtml"
    ∷ codes "*.mht"
    ∷ codes "*.xml"
    ∷ codes "*.xsl"
    ∷ codes "*.xslt"
    ∷ codes "*.tex"
    ∷ codes "*.latex"
    ∷ codes "*.ltx"
    ∷ codes "*.bib"
    ∷ codes "*.rst"
    ∷ codes "*.asciidoc"
    ∷ codes "*.adoc"
    ∷ codes "*.textile"
    ∷ codes "*.wiki"
    ∷ codes "*.mediawiki"
    ∷ codes "*.org"
    ∷ codes "*.texi"
    ∷ codes "*.texinfo"
    ∷ codes "*.info"
    ∷ codes "*.man"
    ∷ codes "*.chm"
    ∷ codes "*.hlp"
    ∷ codes "*.xps"
    ∷ codes "*.jpg"
    ∷ codes "*.jpeg"
    ∷ codes "*.png"
    ∷ codes "*.gif"
    ∷ codes "*.bmp"
    ∷ codes "*.tiff"
    ∷ codes "*.ico"
    ∷ codes "*.webp"
    ∷ codes "*.heic"
    ∷ codes "*.heif"
    ∷ codes "*.hevc"
    ∷ codes "*.svg"
    ∷ codes "*.mp4"
    ∷ codes "*.mov"
    ∷ codes "*.avi"
    ∷ codes "*.mkv"
    ∷ codes "*.webm"
    ∷ codes "*.m4v"
    ∷ codes "*.flv"
    ∷ codes "*.wmv"
    ∷ codes "*.mpg"
    ∷ codes "*.mpeg"
    ∷ []
