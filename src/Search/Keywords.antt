-- ===== src/Search/Keywords.antt =====
-- The keyword table of apps/web/src/lib/nlpSearch.ts.
use startup.Common.{List, [], ◌∷◌, ◌++◌, Text, codes}
use startup.Marketplace.{
  ToolCategory, nlp, computer_vision, data_analysis, automation, generation, category_name,
}
use Prim.Native.String.{String}

entry : ToolCategory → String → Text × Text
unfolding codes category_name
entry category keyword = (codes keyword, category_name category)

nlp_keywords : List (Text × Text)
unfolding entry
nlp_keywords =
    entry nlp "natural language processing"
    ∷ entry nlp "sentiment analysis"
    ∷ entry nlp "text classification"
    ∷ entry nlp "named entity recognition"
    ∷ entry nlp "text summarization"
    ∷ entry nlp "machine translation"
    ∷ entry nlp "language model"
    ∷ entry nlp "text analysis"
    ∷ entry nlp "question answering"
    ∷ entry nlp "summarize"
    ∷ entry nlp "summarizer"
    ∷ entry nlp "summary"
    ∷ entry nlp "translate"
    ∷ entry nlp "translation"
    ∷ entry nlp "sentiment"
    ∷ entry nlp "chatbot"
    ∷ entry nlp "embedding"
    ∷ entry nlp "semantic"
    ∷ entry nlp "language"
    ∷ entry nlp "nlp"
    ∷ entry nlp "llm"
    ∷ entry nlp "gpt"
    ∷ entry nlp "text"
    ∷ entry nlp "speech"
    ∷ []

computer_vision_keywords : List (Text × Text)
unfolding entry
computer_vision_keywords =
    entry computer_vision "object detection"
    ∷ entry computer_vision "image classification"
    ∷ entry computer_vision "face recognition"
    ∷ entry computer_vision "image segmentation"
    ∷ entry computer_vision "optical character recognition"
    ∷ entry computer_vision "computer vision"
    ∷ entry computer_vision "image recognition"
    ∷ entry computer_vision "visual search"
    ∷ entry computer_vision "image analysis"
    ∷ entry computer_vision "ocr"
    ∷ entry computer_vision "vision"
    ∷ entry computer_vision "detect"
    ∷ entry computer_vision "image"
    ∷ entry computer_vision "photo"
    ∷ entry computer_vision "video"
    ∷ entry computer_vision "visual"
    ∷ entry computer_vision "camera"
    ∷ entry computer_vision "frame"
    ∷ []

data_analysis_keywords : List (Text × Text)
unfolding entry
data_analysis_keywords =
    entry data_analysis "predictive analytics"
    ∷ entry data_analysis "anomaly detection"
    ∷ entry data_analysis "time series"
    ∷ entry data_analysis "data visualization"
    ∷ entry data_analysis "data analysis"
    ∷ entry data_analysis "data pipeline"
    ∷ entry data_analysis "machine learning"
    ∷ entry data_analysis "forecast"
    ∷ entry data_analysis "prediction"
    ∷ entry data_analysis "analytics"
    ∷ entry data_analysis "statistics"
    ∷ entry data_analysis "analyze"
    ∷ entry data_analysis "analysis"
    ∷ entry data_analysis "dataset"
    ∷ entry data_analysis "csv"
    ∷ entry data_analysis "chart"
    ∷ entry data_analysis "graph"
    ∷ entry data_analysis "metrics"
    ∷ entry data_analysis "insight"
    ∷ entry data_analysis "ml"
    ∷ entry data_analysis "model"
    ∷ []

automation_keywords : List (Text × Text)
unfolding entry
automation_keywords =
    entry automation "workflow automation"
    ∷ entry automation "task automation"
    ∷ entry automation "robotic process"
    ∷ entry automation "web scraping"
    ∷ entry automation "batch processing"
    ∷ entry automation "automate"
    ∷ entry automation "automation"
    ∷ entry automation "workflow"
    ∷ entry automation "pipeline"
    ∷ entry automation "schedule"
    ∷ entry automation "trigger"
    ∷ entry automation "webhook"
    ∷ entry automation "scrape"
    ∷ entry automation "extract"
    ∷ entry automation "crawl"
    ∷ entry automation "bot"
    ∷ entry automation "process"
    ∷ []

generation_keywords : List (Text × Text)
unfolding entry
generation_keywords =
    entry generation "code generation"
    ∷ entry generation "image generation"
    ∷ entry generation "text generation"
    ∷ entry generation "content generation"
    ∷ entry generation "generate"
    ∷ entry generation "generation"
    ∷ entry generation "write"
    ∷ entry generation "writing"
    ∷ entry generation "draft"
    ∷ entry generation "compose"
    ∷ entry generation "create content"
    ∷ entry generation "art"
    ∷ entry generation "music"
    ∷ entry generation "design"
    ∷ entry generation "diffusion"
    ∷ []

-- `KEYWORD_CATEGORY`, in the order of the source.
unfoldable pub keyword_category : List (Text × Text)
unfolding nlp_keywords computer_vision_keywords data_analysis_keywords automation_keywords
    generation_keywords
keyword_category =
    nlp_keywords
    ++ (computer_vision_keywords
        ++ (data_analysis_keywords ++ (automation_keywords ++ (generation_keywords))))
