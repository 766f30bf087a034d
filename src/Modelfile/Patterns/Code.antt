-- ===== src/Modelfile/Patterns/Code.antt =====
-- `CodeFilePatterns` of pkg/modelfile/constants.go.
use modctl.Prelude.{Text, codes, List, [], ◌∷◌}

unfoldable pub code_file_patterns : List Text
code_file_patterns =
    codes "*.py"
    ∷ codes "*.ipynb"
    ∷ codes "*.sh"
    ∷ codes "*.patch"
    ∷ codes "*.c"
    ∷ codes "*.h"
    ∷ codes "*.hxx"
    ∷ codes "*.cpp"
    ∷ codes "*.cc"
    ∷ codes "*.cxx"
    ∷ codes "*.c++"
    ∷ codes "*.hpp"
    ∷ codes "*.hh"
    ∷ codes "*.h++"
    ∷ codes "*.java"
    ∷ codes "*.js"
    ∷ codes "*.mjs"
    ∷ codes "*.cjs"
    ∷ codes "*.jsx"
    ∷ codes "*.ts"
    ∷ codes "*.tsx"
    ∷ codes "*.go"
    ∷ codes "*.rs"
    ∷ codes "*.swift"
    ∷ codes "*.rb"
    ∷ codes "*.php"
    ∷ codes "*.scala"
    ∷ codes "*.kt"
    ∷ codes "*.kts"
    ∷ codes "*.r"
    ∷ codes "*.R"
    ∷ codes "*.m"
    ∷ codes "*.mm"
    ∷ codes "*.f"
    ∷ codes "*.f90"
    ∷ codes "*.f95"
    ∷ codes "*.f03"
    ∷ codes "*.f08"
    ∷ codes "*.jl"
    ∷ codes "*.lua"
    ∷ codes "*.pl"
    ∷ codes "*.pm"
    ∷ codes "*.cs"
    ∷ codes "*.vb"
    ∷ codes "*.dart"
    ∷ codes "*.groovy"
    ∷ codes "*.elm"
    ∷ codes "*.erl"
    ∷ codes "*.hrl"
    ∷ codes "*.ex"
    ∷ codes "*.exs"
    ∷ codes "*.hs"
    ∷ codes "*.lhs"
    ∷ codes "*.clj"
    ∷ codes "*.cljs"
    ∷ codes "*.cljc"
    ∷ codes "*.cl"
    ∷ codes "*.lisp"
    ∷ codes "*.lsp"
    ∷ codes "*.scm"
    ∷ codes "*.ss"
    ∷ codes "*.rkt"
    ∷ codes "*.sql"
    ∷ codes "*.psql"
    ∷ codes "*.mysql"
    ∷ codes "*.sqlite"
    ∷ codes "*.zig"
    ∷ codes "*.cu"
    ∷ codes "*.cuh"
    ∷ codes "*.bash"
    ∷ codes "*.zsh"
    ∷ codes "*.fish"
    ∷ codes "*.csh"
    ∷ codes "*.tcsh"
    ∷ codes "*.ksh"
    ∷ codes "*.ps1"
    ∷ codes "*.psm1"
    ∷ codes "*.psd1"
    ∷ codes "*.bat"
    ∷ codes "*.cmd"
    ∷ codes "*.vbs"
    ∷ codes "*.wsf"
    ∷ codes "*.applescript"
    ∷ codes "*.scpt"
    ∷ codes "*.awk"
    ∷ codes "*.sed"
    ∷ codes "*.expect"
    ∷ codes "*.env"
    ∷ codes "*.env.*"
    ∷ codes ".env*"
    ∷ codes "Makefile*"
    ∷ codes "*.dockerfile"
    ∷ codes "Dockerfile*"
    ∷ codes "*.mk"
    ∷ codes "*.cmake"
    ∷ codes "CMakeLists.txt"
    ∷ codes "*.gradle"
    ∷ codes "*.gradle.kts"
    ∷ codes "build.gradle*"
    ∷ codes "settings.gradle*"
    ∷ codes "*.sbt"
    ∷ codes "*.mill"
    ∷ codes "*.bazel"
    ∷ codes "*.bzl"
    ∷ codes "BUILD*"
    ∷ codes "WORKSPACE*"
    ∷ codes "*.buck"
    ∷ codes "BUCK*"
    ∷ codes "*.ninja"
    ∷ codes "*.gyp"
    ∷ codes "*.gypi"
    ∷ codes "*.waf"
    ∷ codes "wscript*"
    ∷ codes "package.json"
    ∷ codes "package-lock.json"
    ∷ codes "yarn.lock"
    ∷ codes "pnpm-lock.yaml"
    ∷ codes "requirements*.txt"
    ∷ codes "Pipfile*"
    ∷ codes "pyproject.toml"
    ∷ codes "setup.cfg"
    ∷ codes "tox.ini"
    ∷ codes "poetry.lock"
    ∷ codes "Cargo.toml"
    ∷ codes "Cargo.lock"
    ∷ codes "go.mod"
    ∷ codes "go.sum"
    ∷ codes "composer.json"
    ∷ codes "composer.lock"
    ∷ codes "Gemfile*"
    ∷ codes "*.gemspec"
    ∷ codes "mix.exs"
    ∷ codes "mix.lock"
    ∷ codes "rebar.config"
    ∷ codes "rebar.lock"
    ∷ codes "*.so"
    ∷ codes "*.dll"
    ∷ codes "*.dylib"
    ∷ codes "*.lib"
    ∷ codes "*.a"
    ∷ []
