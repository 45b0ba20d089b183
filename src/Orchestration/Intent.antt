-- ===== src/Orchestration/Intent.antt =====
-- classify_intent (app/orchestration/intent.py). `str.lower` is a parameter.
use office_mult_agent.Base.{String, ◌&&◌, ◌||◌, if◌then◌else◌}
use office_mult_agent.Base.Text.{contains_text}

pub data Intent : Type 0 where
  report_submission meeting_review chart_generation report_export memory_management composite_task
        daily_report weekly_report meeting_minutes email_polish file_analysis knowledge_qa
        general_chat :
      Intent

-- The tests in the order of the code, on the lower-case text.
unfoldable pub intent_of : String → Intent
intent_of text =
    let has = λ (part : String). contains_text part text in
    if (has "提交" || has "submit") && (has "日报" || has "周报" || has "report")
    then report_submission
    else if (has "审核" || has "review") && (has "会议" || has "meeting")
    then meeting_review
    else if has "图表" || has "chart"
    then chart_generation
    else if has "导出" || has "export"
    then report_export
    else if has "记忆" || has "偏好" || has "memory"
    then memory_management
    else if (has "分析" || has "analysis") && (has "日报" || has "report")
    then composite_task
    else if has "日报" || has "daily report"
    then daily_report
    else if has "周报" || has "weekly report"
    then weekly_report
    else if has "会议纪要" || has "meeting minutes"
    then meeting_minutes
    else if has "润色" || has "polish"
    then email_polish
    else if has "excel" || has "csv" || has "分析文件"
    then file_analysis
    else if has "知识库" || has "knowledge"
    then knowledge_qa
    else general_chat

unfoldable pub classify_intent : (String → String) → String → Intent
unfolding intent_of
classify_intent lower message = intent_of (lower message)
